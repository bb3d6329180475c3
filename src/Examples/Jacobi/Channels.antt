-- ===== src/Examples/Jacobi/Channels.antt =====
-- examples/jacobi3d/source/grid.cpp: the global memory slots from which `Grid::initialize` makes the
-- channels between neighbours. A slot is known by its tag and its key; keys do not wrap around.
pub mod Keys
pub mod Meet
use task_r.Base.{ℕ, ◌+◌, ◌-◌, ◌*◌}
use task_r.Examples.Jacobi.{D3, Neighbor, x0, x1, y0, y1, z0, z1}
use task_r.Examples.Jacobi.Halo.{Face, face_x0, face_x1, face_y0, face_y1, face_z0, face_z1}

abbrev pub GlobalSlot : Type 0
GlobalSlot = ℕ × ℕ

-- `channelTagX0` to `channelTagZ1`.
abbrev pub channel_tag : Face → ℕ
channel_tag face_x0 = 0
channel_tag face_x1 = 1
channel_tag face_y0 = 2
channel_tag face_y1 = 3
channel_tag face_z0 = 4
channel_tag face_z1 = 5

-- The keys of a subgrid: that of its token buffer is number 0, that of its coordination buffer
-- number 1, and that of its producer buffer number 2.
unfoldable pub key : (lt : D3) → (process_id z y x k : ℕ) → ℕ
key lt process_id z y x k =
    3 * (process_id * lt.z * lt.y * lt.x + z * lt.y * lt.x + y * lt.x + x) + k

-- The slots that a subgrid gives to the exchange under the tag of a face.
unfoldable pub registered : (lt : D3) → (process_id : ℕ) → (l : D3) → Face → (k : ℕ) → GlobalSlot
registered lt process_id l f k = (channel_tag f, key lt process_id l.z l.y l.x k)

-- The slots of the channel to a neighbour, and of that from it.
pub record Channel : Type 0 where
  pub send_token : GlobalSlot
  pub send_consumer : GlobalSlot
  pub send_producer : GlobalSlot
  pub recv_token : GlobalSlot
  pub recv_consumer : GlobalSlot
  pub recv_producer : GlobalSlot

-- With the tag of the own face, that of the opposite one, and the remote keys.
abbrev connect : (own opposite : ℕ) → (local_key remote_key : ℕ → ℕ) → Channel
connect own opposite local_key remote_key = record {
  send_token = (opposite, remote_key 0);
  send_consumer = (opposite, remote_key 1);
  send_producer = (own, local_key 2);
  recv_token = (own, local_key 0);
  recv_consumer = (own, local_key 1);
  recv_producer = (opposite, remote_key 2);
}

-- The channels of the subgrid at `l` of a process with the process `other` beside a face.
unfoldable pub channel : (lt : D3) → (process_id other : ℕ) → (l : D3) → Face → Channel
channel lt process_id other l face_x0 =
    connect 0 1 (key lt process_id l.z l.y l.x) (key lt other l.z l.y (lt.x - 1))
channel lt process_id other l face_x1 =
    connect 1 0 (key lt process_id l.z l.y l.x) (key lt other l.z l.y 0)
channel lt process_id other l face_y0 =
    connect 2 3 (key lt process_id l.z l.y l.x) (key lt other l.z (lt.y - 1) l.x)
channel lt process_id other l face_y1 =
    connect 3 2 (key lt process_id l.z l.y l.x) (key lt other l.z 0 l.x)
channel lt process_id other l face_z0 =
    connect 4 5 (key lt process_id l.z l.y l.x) (key lt other (lt.z - 1) l.y l.x)
channel lt process_id other l face_z1 =
    connect 5 4 (key lt process_id l.z l.y l.x) (key lt other 0 l.y l.x)

-- What `initialize` finds at a face of a subgrid.
abbrev pub neighbor :
    (processes subgrids : ℕ → ℕ → ℕ → ℕ) (pt lt : D3) (process_id : ℕ) (p l : D3) → Face → Neighbor
neighbor processes subgrids pt lt process_id p l face_x0 =
    x0 processes subgrids pt lt process_id p l
neighbor processes subgrids pt lt process_id p l face_x1 =
    x1 processes subgrids pt lt process_id p l
neighbor processes subgrids pt lt process_id p l face_y0 =
    y0 processes subgrids pt lt process_id p l
neighbor processes subgrids pt lt process_id p l face_y1 =
    y1 processes subgrids pt lt process_id p l
neighbor processes subgrids pt lt process_id p l face_z0 =
    z0 processes subgrids pt lt process_id p l
neighbor processes subgrids pt lt process_id p l face_z1 =
    z1 processes subgrids pt lt process_id p l
