-- ===== src/Examples/Jacobi/Channels/Meet.antt =====
-- The two ends of a channel.
use task_r.Base.{ℕ, ◌+◌, ◌-◌, ◌≡◌, arith, refl, sym, ap, ◌∙◌, true}
use mathlib.Core.Path.{subst₂}
use task_r.Examples.Jacobi.{D3, Numbering, number, place_below, place_above, x0, x1, y0, y1, z0, z1}
use task_r.Examples.Jacobi.Numbers.{IsInside, number_of}
use task_r.Examples.Jacobi.Initialized.{mapped}
use task_r.Examples.Jacobi.Halo.{
  Face, face_x0, face_x1, face_y0, face_y1, face_z0, face_z1, is_remote,
}
use task_r.Examples.Jacobi.Halo.Exchange.{
  opposite, kind_at, process_at, subgrid_at, opposite-remote, subgrid_at-IsInside,
}
use task_r.Examples.Jacobi.Channels.{Channel, channel, neighbor, registered}

process_at-IsInside :
    (pt lt p l : D3) (f : Face)
    → IsInside pt p
    → IsInside lt l
    → is_remote (kind_at pt lt p l f) ≡ true
    → IsInside pt (process_at f p)
process_at-IsInside pt lt p l face_x0 inside l_inside far = ground arith
process_at-IsInside pt lt p l _ inside l_inside far = ground arith

-- The process that is found beside a face to another process.
module _ (subgrids : ℕ → ℕ → ℕ → ℕ) (pt lt : D3) (s : Numbering) (e : s.current ≡ 0) where
  found_process :
      (own : ℕ) (p l : D3) (f : Face)
      → IsInside pt p
      → IsInside lt l
      → is_remote (kind_at pt lt p l f) ≡ true
      → (neighbor (number pt s).0.mapping subgrids pt lt own p l f).process_id
        ≡ number_of pt (process_at f p)
  unfolding x0 x1 y0 y1 z0 z1
  found_process own p l face_x0 inside l_inside far = ground (
    arith,
    mapped pt s e (process_at face_x0 p)
        (process_at-IsInside pt lt p l face_x0 inside l_inside far),
  )
  found_process own p l f inside l_inside far =
      ground (
        arith,
        mapped pt s e (process_at f p) (process_at-IsInside pt lt p l f inside l_inside far),
      )

back_again :
    (pt lt p l : D3) (f : Face)
    → is_remote (kind_at pt lt p l f) ≡ true
    → process_at (opposite f) (process_at f p) ≡ p
back_again pt lt p l face_x0 far =
    let e : p.x - 1 + 1 ≡ p.x = ground arith in (λ i. record p { x = e i })
back_again pt lt p l face_x1 far =
    let e : p.x + 1 - 1 ≡ p.x = ground arith in (λ i. record p { x = e i })
back_again pt lt p l face_y0 far =
    let e : p.y - 1 + 1 ≡ p.y = ground arith in (λ i. record p { y = e i })
back_again pt lt p l face_y1 far =
    let e : p.y + 1 - 1 ≡ p.y = ground arith in (λ i. record p { y = e i })
back_again pt lt p l face_z0 far =
    let e : p.z - 1 + 1 ≡ p.z = ground arith in (λ i. record p { z = e i })
back_again pt lt p l face_z1 far =
    let e : p.z + 1 - 1 ≡ p.z = ground arith in (λ i. record p { z = e i })

-- What one end sends into is what the other end receives from, in both directions.
pub record Meets (a b : Channel) : Type 0 where
  pub token : a.send_token ≡ b.recv_token
  pub consumer : a.send_consumer ≡ b.recv_consumer
  pub producer : a.send_producer ≡ b.recv_producer
  pub token_back : b.send_token ≡ a.recv_token
  pub consumer_back : b.send_consumer ≡ a.recv_consumer
  pub producer_back : b.send_producer ≡ a.recv_producer

-- The own slots of a channel are those that the subgrid gave to the exchange.
pub record Owns (lt : D3) (process_id : ℕ) (l : D3) (f : Face) (a : Channel) : Type 0 where
  pub token : a.recv_token ≡ registered lt process_id l f 0
  pub consumer : a.recv_consumer ≡ registered lt process_id l f 1
  pub producer : a.send_producer ≡ registered lt process_id l f 2

channel-Owns :
    (lt : D3) (process_id other : ℕ) (l : D3) (f : Face)
    → Owns lt process_id l f (channel lt process_id other l f)
unfolding channel registered
channel-Owns lt process_id other l face_x0 = record {
  token = refl;
  consumer = refl;
  producer = refl;
}
channel-Owns lt process_id other l _ = record { token = refl; consumer = refl; producer = refl }

channel-Meets :
    (pt lt p l : D3) (own other : ℕ) (f : Face)
    → is_remote (kind_at pt lt p l f) ≡ true
    → Meets (channel lt own other l f) (channel lt other own (subgrid_at f lt l) (opposite f))
unfolding channel
channel-Meets pt lt p l own other face_x0 far =
    let mine : l.x ≡ 0 = ground arith in
    let theirs : place_below l.x lt.x ≡ lt.x - 1 = ground arith in
    record {
      token = cc;
      consumer = cc;
      producer = cc;
      token_back = cc;
      consumer_back = cc;
      producer_back = cc;
    }
channel-Meets pt lt p l own other face_x1 far =
    let mine : l.x ≡ lt.x - 1 = ground arith in
    let theirs : place_above l.x lt.x ≡ 0 = ground arith in
    record {
      token = cc;
      consumer = cc;
      producer = cc;
      token_back = cc;
      consumer_back = cc;
      producer_back = cc;
    }
channel-Meets pt lt p l own other face_y0 far =
    let mine : l.y ≡ 0 = ground arith in
    let theirs : place_below l.y lt.y ≡ lt.y - 1 = ground arith in
    record {
      token = cc;
      consumer = cc;
      producer = cc;
      token_back = cc;
      consumer_back = cc;
      producer_back = cc;
    }
channel-Meets pt lt p l own other face_y1 far =
    let mine : l.y ≡ lt.y - 1 = ground arith in
    let theirs : place_above l.y lt.y ≡ 0 = ground arith in
    record {
      token = cc;
      consumer = cc;
      producer = cc;
      token_back = cc;
      consumer_back = cc;
      producer_back = cc;
    }
channel-Meets pt lt p l own other face_z0 far =
    let mine : l.z ≡ 0 = ground arith in
    let theirs : place_below l.z lt.z ≡ lt.z - 1 = ground arith in
    record {
      token = cc;
      consumer = cc;
      producer = cc;
      token_back = cc;
      consumer_back = cc;
      producer_back = cc;
    }
channel-Meets pt lt p l own other face_z1 far =
    let mine : l.z ≡ lt.z - 1 = ground arith in
    let theirs : place_above l.z lt.z ≡ 0 = ground arith in
    record {
      token = cc;
      consumer = cc;
      producer = cc;
      token_back = cc;
      consumer_back = cc;
      producer_back = cc;
    }

-- The channels that are made at both ends, from the processes found there, meet, and use own slots.
abbrev pub ChannelsMeet : (processes subgrids : ℕ → ℕ → ℕ → ℕ) (pt lt p l : D3) → Face → Type 0
ChannelsMeet processes subgrids pt lt p l f =
    let q = process_at f p in
    let m = subgrid_at f lt l in
    let found = neighbor processes subgrids pt lt (number_of pt p) p l f in
    let found' = neighbor processes subgrids pt lt (number_of pt q) q m (opposite f) in
    let here = channel lt (number_of pt p) found.process_id l f in
    let there = channel lt (number_of pt q) found'.process_id m (opposite f) in
    Meets here there
    × Owns lt (number_of pt p) l f here
    × Owns lt (number_of pt q) m (opposite f) there

-- With the processes numbered by the loops of `initialize`, from zero and in any memory, take a subgrid with
-- a neighbour in another process at a face, and the channels that `initialize` makes at both ends from
-- the process that it found there. All own slots are those that the subgrid of that end gave to the
-- exchange, and each end sends into the slots from which the other one receives.
pub channels_meet :
    (subgrids : ℕ → ℕ → ℕ → ℕ) (pt lt p l : D3) (s : Numbering) (f : Face)
    → s.current ≡ 0
    → IsInside pt p
    → IsInside lt l
    → is_remote (kind_at pt lt p l f) ≡ true
    → ChannelsMeet (number pt s).0.mapping subgrids pt lt p l f
channels_meet subgrids pt lt p l s f e inside l_inside far =
    let q = process_at f p in
    let m = subgrid_at f lt l in
    let m_inside = subgrid_at-IsInside lt l f l_inside in
    let q_inside = process_at-IsInside pt lt p l f inside l_inside far in
    let there = opposite-remote pt lt p l f inside l_inside far in
    let found = found_process subgrids pt lt s e (number_of pt p) p l f inside l_inside far in
    let found' =
      found_process subgrids pt lt s e (number_of pt q) q m (opposite f) q_inside m_inside there
      ∙ ap (number_of pt) (back_again pt lt p l f far) in
    (
      subst₂
          (λ a b.
            Meets (channel lt (number_of pt p) a l f)
              (channel lt (number_of pt q) b m (opposite f)))
          (sym found) (sym found')
          (channel-Meets pt lt p l (number_of pt p) (number_of pt q) f far),
      channel-Owns lt (number_of pt p) _ l f,
      channel-Owns lt (number_of pt q) _ m (opposite f),
    )
