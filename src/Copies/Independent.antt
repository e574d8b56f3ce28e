-- ===== src/Copies/Independent.antt =====
-- What the deep copies of the resources promise, from `DeepCopyObject` of the lists, which go
-- through all structs below them; and what the copy of a configuration shares with its original.
use v2ray_operator.Prelude.{ℕ, ◌≡◌, Option, some, List, length}
use v2ray_operator.Copies.Heap.{Ref, ◌>>=◌}
use v2ray_operator.Copies.Heap.Pointers.{view_pointer}
use v2ray_operator.Copies.Heap.Writes.{Below, From, Independent, new_copy-Independent}
use v2ray_operator.Copies.Cells.{Foreign, Cell}
use v2ray_operator.Copies.Cells.Users.{user_list_cell}
use v2ray_operator.Copies.Cells.V2rays.{v2ray_list_cell}
use v2ray_operator.Copies.Cells.Clients.{client_list_cell}
use v2ray_operator.Copies.Machinery.{Machinery, CopiesDeeply, Object, as_object}
use v2ray_operator.Copies.V2rayUserList
use v2ray_operator.Copies.V2rayList
use v2ray_operator.Copies.V2rayClientList

module _ {F : Foreign} (K : Machinery F) (deep : CopiesDeeply K) (h : List (Cell F)) (p : Ref) where
  -- Of a list of users that can be read, `DeepCopyObject` makes a copy without changing a cell; it
  -- returns the copy as an interface value, nil for a nil pointer. The copy has the value of the
  -- original, metadata, node lists and conditions included, where nil and empty differ. It keeps that
  -- value whatever is written to memory that was there before, and the original keeps it whatever is
  -- written to memory that the copy brought.
  pub user_list-Independent :
      (v : Option (V2rayUserList.Value K)) (old new : List (ℕ × Cell F))
      → view_pointer (V2rayUserList.view K) h p ≡ some v
      → Below (length h) old
      → From (length h) new
      → (q : Ref) × (h' : List (Cell F)) × (V2rayUserList.deep_copy_object K p h
          ≡ some (as_object Object.v2ray_user_list q, h'))
        × Independent (V2rayUserList.view K) h h' p q v old new
  unfolding V2rayUserList.deep_copy_object
  user_list-Independent v old new e below from =
      let (q, h', ran, rest) =
        new_copy-Independent (V2rayUserList.Deep-deep_copy_into K deep) h p v old new e below
          from in
      (q, h', rw (ran, ◌>>=◌), rest)

  -- The same of a list of V2ray objects.
  pub v2ray_list-Independent :
      (v : Option (V2rayList.Value K)) (old new : List (ℕ × Cell F))
      → view_pointer (V2rayList.view K) h p ≡ some v
      → Below (length h) old
      → From (length h) new
      → (q : Ref) × (h' : List (Cell F)) × (V2rayList.deep_copy_object K p h
          ≡ some (as_object Object.v2ray_list q, h'))
        × Independent (V2rayList.view K) h h' p q v old new
  unfolding V2rayList.deep_copy_object
  v2ray_list-Independent v old new e below from =
      let (q, h', ran, rest) =
        new_copy-Independent (V2rayList.Deep-deep_copy_into K deep) h p v old new e below from in
      (q, h', rw (ran, ◌>>=◌), rest)

  -- Of a list of clients that can be read, `DeepCopyObject` makes a copy without changing a cell,
  -- with the value of the original; the value of a configuration has its own entries of inbounds and
  -- outbounds, and of the other structs that it points to no more than the addresses. The copy keeps
  -- that value whatever is written to memory that was there before, and the original keeps it
  -- whatever is written to memory that the copy brought.
  pub client_list-Independent :
      (v : Option (V2rayClientList.Value K)) (old new : List (ℕ × Cell F))
      → view_pointer (V2rayClientList.view K) h p ≡ some v
      → Below (length h) old
      → From (length h) new
      → (q : Ref) × (h' : List (Cell F)) × (V2rayClientList.deep_copy_object K p h
          ≡ some (as_object Object.v2ray_client_list q, h'))
        × Independent (V2rayClientList.view K) h h' p q v old new
  unfolding V2rayClientList.deep_copy_object
  client_list-Independent v old new e below from =
      let (q, h', ran, rest) =
        new_copy-Independent (V2rayClientList.Deep-deep_copy_into K deep) h p v old new e below
          from in
      (q, h', rw (ran, ◌>>=◌), rest)
