-- ===== src/Tests/Grids.antt =====
-- Two processes in the direction of x, with a grid of four by two by two cells and a depth of one.
use task_r.Base.{List, All, ◌*◌, ok, [], ◌∷◌, ◌↔◌, ℕ, ◌+◌, ◌≡◌, refl, arith, some, true}
use task_r.Examples.Jacobi.{D3, Numbering, number, Sizes, sizes}
use task_r.Examples.Jacobi.Grid.{
  Fields, bounds, compute, for_blocks, update_cell, add_all, add_neighbors, load, load_before,
  store,
}
use task_r.Examples.Jacobi.Grid.Cells.{InBounds, grid}
use task_r.Examples.Jacobi.Grid.Stencil.{updated}
use task_r.Examples.Jacobi.Grid.Global.{Agrees, offset, compute_whole}
use task_r.Examples.Jacobi.Grid.AnyOrder.{compute_all, ComputesAll, compute_any_order}
use task_r.Examples.Jacobi.Halo.{
  Packing, Face, face_x0, face_x1, is_remote, extent, pack, pack_face, pack_cell,
}
use task_r.Examples.Jacobi.Halo.Places.{room, at_position}
use task_r.Examples.Jacobi.Halo.{unpack, ghost}
use task_r.Examples.Jacobi.Numbers.{IsInside}
use task_r.Examples.Jacobi.Halo.Global.{exchange_whole}
use task_r.Examples.Jacobi.Halo.Exchange.{Exchanges, HasMemory, unpack-pack, kind_at}
use task_r.Examples.Jacobi.Reset.{reset, clear, fill}
use task_r.Examples.Jacobi.Reset.Cleared.{Resets, reset_lem}
use task_r.Examples.Jacobi.TaskNames.{
  TaskType, TaskName, compute_task, pack_task, send_task, encode_task_name, encode_all,
  encode_task_name_lem,
}
use task_r.Examples.Jacobi.Channels.{registered, key}
use task_r.Examples.Jacobi.Channels.Keys.{registered_once}
use task_r.Examples.Jacobi.Channels.Meet.{ChannelsMeet, channels_meet}

abbrev pt : D3
pt = record { x = 2; y = 1; z = 1 }

abbrev lt : D3
lt = record { x = 1; y = 2; z = 1 }

abbrev origin : D3
origin = record { x = 0; y = 0; z = 0 }

abbrev sz : Sizes
sz = record {
  ps = record { x = 1; y = 2; z = 2 };
  fs = record { x = 3; y = 4; z = 4 };
  ls = record { x = 1; y = 1; z = 2 };
}

checked : sizes 2 1 pt lt ≡ some sz
unfolding sizes
checked = refl

-- Each cell of `U` holds its index.
abbrev numbered : Fields ℕ
numbered = record { u = record { size = 48; at = λ n. n }; un = record { size = 48; at = λ n. 0 } }

-- The cell (1, 1, 1), whose index is 16, and its six neighbours.
summed :
    (compute (λ a b. a + b) (λ a. a) sz.fs 1 (bounds 1 sz.ls origin) 0 numbered).0.un.at 16 ≡ 112
unfolding compute for_blocks update_cell add_all add_neighbors load load_before store bounds
summed = refl

-- Buffers of the size of the faces in the direction of x.
abbrev empty : Packing ℕ
empty = record {
  fields = numbered;
  slot = λ f. record { size = 2; at = λ n. 0 };
  buffer_idx = 0;
  popped = λ f. 0;
}

abbrev packed : Packing ℕ
packed = (pack sz.fs 1 sz.ls (bounds 1 sz.ls origin) 1 (kind_at pt lt origin origin) empty).0

abbrev received : Packing ℕ
received = record empty { slot = λ f. packed.slot face_x1 }

sent : (packed.slot face_x1).at 1 ≡ 28
unfolding pack pack_face pack_cell bounds
sent = refl

sender_rooms :
    (f : Face)
    → is_remote (kind_at pt lt origin origin f) ≡ true
    → (empty.slot f).size ≡ room (extent 1 sz.ls f)
sender_rooms face_x0 far = refl
sender_rooms face_x1 far = refl
sender_rooms _ far = cc

receiver_rooms :
    (f : Face)
    → is_remote (kind_at pt lt (record { x = 1; y = 0; z = 0 }) origin f) ≡ true
    → (received.slot f).size ≡ room (extent 1 sz.ls f)
unfolding pack pack_face pack_cell bounds
receiver_rooms face_x0 far = refl
receiver_rooms face_x1 far = refl
receiver_rooms _ far = cc

has_memory : HasMemory 1 1 sz (kind_at pt lt origin origin) empty
has_memory = record { grid = refl; rooms = sender_rooms }

has_received : HasMemory 1 1 sz (kind_at pt lt (record { x = 1; y = 0; z = 0 }) origin) received
has_received = record { grid = refl; rooms = receiver_rooms }

unpack-pack_example : Exchanges 1 1 pt lt origin origin sz face_x1 empty received
unpack-pack_example =
    unpack-pack 2 1 1 pt lt origin origin sz face_x1 empty received checked (omega arith)
      (omega arith) refl has_memory has_received refl

abbrev nothing : Numbering
nothing = record { mapping = λ z y x. 0; rank = λ r. pt; current = 0 }

-- The slots of the second subgrid of process 1 under the tag of its face X0.
token_key : registered lt 1 (record { x = 0; y = 1; z = 0 }) face_x0 0 ≡ (0, 9)
unfolding registered key
token_key = refl

registered_once_example :
    (face_x0 ≡ face_x0)
    × (◌≡◌ {A = ℕ} 1 1)
    × (◌≡◌ {A = D3} (record { x = 0; y = 1; z = 0 }) (record { x = 0; y = 1; z = 0 }))
    × (◌≡◌ {A = ℕ} 2 2)
registered_once_example =
    registered_once lt 1 1 (record { x = 0; y = 1; z = 0 }) (record { x = 0; y = 1; z = 0 }) face_x0
      face_x0 2 2 (omega arith) (omega arith) (omega arith) (omega arith) refl

channels_meet_example :
    ChannelsMeet (number pt nothing).0.mapping (λ z y x. y) pt lt origin origin face_x1
channels_meet_example =
    channels_meet (λ z y x. y) pt lt origin origin nothing face_x1 refl (omega arith) (omega arith)
      refl

-- Around the subgrid at the origin: beyond the boundary at X0, and inside.
cleared :
    (reset 1 0 sz.fs sz.ps 1 (bounds 1 sz.ls origin) (kind_at pt lt origin origin) numbered).0.u.at
      15
    ≡ 0
unfolding reset clear fill store bounds
cleared = refl

reset_lem_example : Resets 1 0 1 sz (bounds 1 sz.ls origin) (kind_at pt lt origin origin) numbered
reset_lem_example =
    reset_lem 1 0 2 1 pt lt origin sz (kind_at pt lt origin origin) numbered checked (omega arith)
      refl refl

-- Names whose hash is their iteration.
abbrev named : TaskType → ℕ → TaskName
named kind iter = record { kind = kind; lx = 0; ly = 0; lz = 0; iter = iter }

encode_task_name_lem_example :
    (let ids = encode_all (λ t. t.iter) (named pack_task 4 ∷ named send_task 7 ∷ []) [] in
      let first = encode_task_name (λ t. t.iter) (named compute_task 7) ids in
      let second = encode_task_name (λ t. t.iter) (named compute_task 9) first.0 in
      ((first.1 ≡ second.1) ↔ (◌≡◌ {A = ℕ} 7 9))
      × (encode_task_name
            (λ t. t.iter)
            (named compute_task 7)
            (encode_all (λ t. t.iter) (named pack_task 5 ∷ []) first.0)
          ≡ (encode_all (λ t. t.iter) (named pack_task 5 ∷ []) first.0, first.1)))
encode_task_name_lem_example =
    encode_task_name_lem (λ t. t.iter) (named pack_task 4 ∷ named send_task 7 ∷ [])
      (named pack_task 5 ∷ []) (named compute_task 7) (named compute_task 9)

-- A whole grid in which each cell holds its index in a process of this size.
abbrev rising : ℕ → ℕ → ℕ → ℕ
rising k j i = 12 * k + 3 * j + i

-- Both subgrids, the last one first.
abbrev order : List D3
order = record { x = 0; y = 1; z = 0 } ∷ origin ∷ []

compute_whole_example :
    (s' : Fields ℕ) × (compute_all (λ a b. a + b) (λ a. a) 1 0 sz order numbered ≡ (s', ok tt))
    × All
        (λ l.
          (k j i : ℕ)
          → InBounds (bounds 1 sz.ls l) k j i
          → Agrees
              (grid sz.fs s'.un)
              (updated (λ a b. a + b) (λ a. a) rising 1)
              (offset sz.ps origin)
              k
              j
              i)
        order
compute_whole_example =
    compute_whole (λ a b. a + b) (λ a. a) 2 1 0 pt lt origin sz rising order numbered checked
      (omega arith) refl refl ((λ k j i h. omega arith), ((λ k j i h. omega arith), tt))

compute_any_order_example : ComputesAll (λ a b. a + b) (λ a. a) 1 0 lt sz order numbered
compute_any_order_example =
    compute_any_order (λ a b. a + b) (λ a. a) 2 1 0 pt lt sz order numbered checked (omega arith)
      refl refl

abbrev neighbor_process : D3
neighbor_process = record { x = 1; y = 0; z = 0 }

exchange_whole_example :
    ((pack sz.fs 1 sz.ls (bounds 1 sz.ls origin) 1 (kind_at pt lt origin origin) empty).1 ≡ ok tt)
    × (r' : Packing ℕ) × (unpack sz.fs 1 sz.ls
          (bounds 1 sz.ls origin)
          1
          (kind_at pt lt neighbor_process origin)
          received
        ≡ (r', ok tt))
    × ((d y x : ℕ)
        → IsInside (extent 1 sz.ls face_x1) (at_position d y x)
        → (let c = ghost (bounds 1 sz.ls origin) face_x0 d y x in
            Agrees (grid sz.fs r'.fields.u) rising (offset sz.ps neighbor_process) c.z c.y c.x))
exchange_whole_example =
    exchange_whole 2 1 1 pt lt origin origin sz face_x1 rising empty received checked (omega arith)
      (omega arith) (omega arith) refl has_memory has_received refl (λ k j i h. omega arith)
