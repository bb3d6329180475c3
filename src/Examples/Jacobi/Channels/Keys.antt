-- ===== src/Examples/Jacobi/Channels/Keys.antt =====
-- No two subgrids have a key in common.
use task_r.Base.{ℕ, ◌+◌, ◌*◌, ◌/◌, ◌%◌, ◌<◌, ◌≡◌, arith, sym, ap, ◌∙◌, refl, some, get_elem?}
use native.Mathlib.Nat.{mul_assoc, add-mul}
use task_r.Examples.Blocks.Indices.{flat-div, flat-mod}
use task_r.Examples.Jacobi.{D3}
use task_r.Examples.Jacobi.Numbers.{IsInside, number_of, place-lt, place-injective}
use task_r.Examples.Jacobi.Halo.{Face, faces, face_x0, face_x1, face_y0, face_y1, face_z0, face_z1}
use task_r.Examples.Jacobi.Channels.{key, registered, channel_tag}

-- The number of a subgrid among those of all processes.
abbrev overall : (lt : D3) → ℕ → D3 → ℕ
overall lt process_id l = process_id * (lt.z * lt.y * lt.x) + number_of lt l

key-overall :
    (lt : D3) (process_id : ℕ) (l : D3) (k : ℕ)
    → key lt process_id l.z l.y l.x k ≡ overall lt process_id l * 3 + k
unfolding key
key-overall lt process_id l k = omega (
  arith,
  add-mul (l.z * lt.y) l.y lt.x,
  mul_assoc (process_id * lt.z) lt.y lt.x,
  mul_assoc process_id lt.z (lt.y * lt.x),
  ap (λ (n : ℕ). process_id * n) (mul_assoc lt.z lt.y lt.x),
)

-- The faces stand in the order of their tags.
faces-channel_tag : (f : Face) → get_elem? faces (channel_tag f) ≡ some f
faces-channel_tag face_x0 = refl
faces-channel_tag face_x1 = refl
faces-channel_tag face_y0 = refl
faces-channel_tag face_y1 = refl
faces-channel_tag face_z0 = refl
faces-channel_tag face_z1 = refl

channel_tag-injective : (f f' : Face) → channel_tag f ≡ channel_tag f' → f ≡ f'
channel_tag-injective f f' e =
    cc (sym (faces-channel_tag f) ∙ ap (get_elem? faces) e ∙ faces-channel_tag f')

-- Where two subgrids give a slot to the exchange under the same tag and key, they are the same subgrid of
-- the same process, under the same face, and it is the same kind of buffer.
pub registered_once :
    (lt : D3) (process_id process_id' : ℕ) (l l' : D3) (f f' : Face) (k k' : ℕ)
    → IsInside lt l
    → IsInside lt l'
    → k < 3
    → k' < 3
    → registered lt process_id l f k ≡ registered lt process_id' l' f' k'
    → (f ≡ f') × (process_id ≡ process_id') × (l ≡ l') × (k ≡ k')
unfolding registered
registered_once lt process_id process_id' l l' f f' k k' inside inside' small small' e =
    let same : overall lt process_id l * 3 + k ≡ overall lt process_id' l' * 3 + k' =
      sym (key-overall lt process_id l k) ∙ ap (λ s. s.1) e ∙ key-overall lt process_id' l' k' in
    let whole : overall lt process_id l ≡ overall lt process_id' l' =
      sym (flat-div (overall lt process_id l) k 3 small)
      ∙ ap (λ n. n / 3) same
      ∙ flat-div (overall lt process_id' l') k' 3 small' in
    let size = lt.z * lt.y * lt.x in
    let below = place-lt lt l inside in
    let below' = place-lt lt l' inside' in
    let process : process_id ≡ process_id' =
      sym (flat-div process_id (number_of lt l) size below)
      ∙ ap (λ n. n / size) whole
      ∙ flat-div process_id' (number_of lt l') size below' in
    let number : number_of lt l ≡ number_of lt l' =
      sym (flat-mod process_id (number_of lt l) size below)
      ∙ ap (λ n. n % size) whole
      ∙ flat-mod process_id' (number_of lt l') size below' in
    let (ez, ey, ex) =
      place-injective lt l.z l.y l.x l'.z l'.y l'.x inside.1 inside.2 inside'.1 inside'.2 number in
    (
      channel_tag-injective f f' (ap (λ s. s.0) e),
      process,
      (λ i. record { x = ex i; y = ey i; z = ez i }),
      omega (arith, same, whole),
    )
