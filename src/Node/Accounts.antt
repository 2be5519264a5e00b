-- ===== src/Node/Accounts.antt =====
-- The references that westfield-addon.c holds for a client: which are used, and which are left.
use westfield.Dmabuf.Ownership.{bit}
use westfield.Egl.Extensions.{eq_string}
use westfield.Node.Clients.{
  NodeEffect, call_function, ClientListener, delete_all, references, on_client_destroyed,
  on_wire_message, on_wire_message_end, on_registry_created, on_sync_done, on_resource_created,
  Slot, client_destroyed, wire_message, wire_message_end, registry_created, buffer_created,
  sync_done, set_callback, call_if, Value, object_of, words, number, external, fds_value,
  wl_buffer_class,
}
use westfield.Node.References.{
  Alive, alive_after, IsSafe, alive_after-append, IsSafe-append, ClientEvent, sets, message,
  message_end, registry, synced, resource, ClientState, client_step, client_run, in_slot, is_in,
  is_among, overwritten,
}
use westfield.Prelude.{
  ℕ, ◌+◌, ◌-◌, ◌≤◌, ◌≡◌, refl, inl, inr, Option, none, some, List, [], ◌∷◌, ◌++◌, ◌==◌,
  Option-cases, Bool-cases, arith,
}

bit_refl : (n : ℕ) → bit (n == n) ≡ 1
bit_refl n = ground arith

-- What is alive are the references of the listener and those that are lost.
abbrev pub Accounts : Alive → ClientListener → (ℕ → ℕ) → Type 0
Accounts alive l lost = (k : ℕ) → alive k ≡ is_among k (references l) + lost k

delete_all_lem :
    (os : List (Option ℕ)) (alive : Alive) (lost : ℕ → ℕ)
    → ((k : ℕ) → alive k ≡ is_among k os + lost k)
    → IsSafe alive (delete_all os) × ((k : ℕ) → alive_after alive (delete_all os) k ≡ lost k)
delete_all_lem [] alive lost h = (tt, λ k. omega (arith, h k))
delete_all_lem (none ∷ os) alive lost h = delete_all_lem os alive lost (λ k. omega (arith, h k))
delete_all_lem (some r ∷ os) alive lost h =
    let rest = delete_all_lem os (λ k. alive k - bit (r == k)) lost (λ k. omega (arith, h k)) in
    ((omega (arith, h r, bit_refl r), rest.0), rest.1)

call_if-IsSafe :
    (o : Option ℕ) (values : List Value) (alive : Alive)
    → ((k : ℕ) → is_in k o ≤ alive k)
    → IsSafe alive (call_if o values) × (alive_after alive (call_if o values) ≡ alive)
call_if-IsSafe none values alive h = (tt, refl)
call_if-IsSafe (some r) values alive h = ((omega (arith, h r, bit_refl r), tt), refl)

-- A callback that is set: the new reference is in the slot, and the old one is lost.
set_callback-Accounts :
    (slot : Slot) (r : ℕ) (l : ClientListener) (alive : Alive) (lost : ℕ → ℕ)
    → Accounts alive l lost
    → IsSafe alive (set_callback slot r l).1
      × Accounts
          (alive_after alive (set_callback slot r l).1)
          (set_callback slot r l).0
          (λ k. is_in k (in_slot slot l) + lost k)
unfolding set_callback
set_callback-Accounts client_destroyed r l alive lost h = (tt, λ k. omega (arith, h k))
set_callback-Accounts wire_message r l alive lost h = (tt, λ k. omega (arith, h k))
set_callback-Accounts wire_message_end r l alive lost h = (tt, λ k. omega (arith, h k))
set_callback-Accounts registry_created r l alive lost h = (tt, λ k. omega (arith, h k))
set_callback-Accounts buffer_created r l alive lost h = (tt, λ k. omega (arith, h k))
set_callback-Accounts sync_done r l alive lost h = (tt, λ k. omega (arith, h k))

-- An event that calls at most the function of one slot.
called-IsSafe :
    (slot : Slot) (l : ClientListener) (values : List Value) (alive : Alive) (lost : ℕ → ℕ)
    → Accounts alive l lost
    → IsSafe alive (call_if (in_slot slot l) values)
      × (alive_after alive (call_if (in_slot slot l) values) ≡ alive)
called-IsSafe client_destroyed l values alive lost h =
    call_if-IsSafe l.destroy_cb values alive (λ k. omega (arith, h k))
called-IsSafe wire_message l values alive lost h =
    call_if-IsSafe l.wire_message_cb values alive (λ k. omega (arith, h k))
called-IsSafe wire_message_end l values alive lost h =
    call_if-IsSafe l.wire_message_end_cb values alive (λ k. omega (arith, h k))
called-IsSafe registry_created l values alive lost h =
    call_if-IsSafe l.registry_created_cb values alive (λ k. omega (arith, h k))
called-IsSafe buffer_created l values alive lost h =
    call_if-IsSafe l.buffer_created_cb values alive (λ k. omega (arith, h k))
called-IsSafe sync_done l values alive lost h =
    call_if-IsSafe l.sync_done_cb values alive (λ k. omega (arith, h k))

message_call :
    (l : ClientListener) (wire : List ℕ) (object_id opcode answer : ℕ)
    → (on_wire_message l wire object_id opcode answer).1
      ≡ call_if l.wire_message_cb
          (object_of l.js_object ∷ words wire ∷ number object_id ∷ number opcode ∷ [])
unfolding on_wire_message
message_call l wire object_id opcode answer = ground arith

-- Effects that leave what is alive, before others.
quiet-first :
    (alive : Alive) (one more : List NodeEffect) (l : ClientListener) (lost : ℕ → ℕ)
    → IsSafe alive one × (alive_after alive one ≡ alive)
    → IsSafe alive more × Accounts (alive_after alive more) l lost
    → IsSafe alive (one ++ more) × Accounts (alive_after alive (one ++ more)) l lost
quiet-first alive one more l lost quiet rest =
    let same = quiet.1 in
    (
      IsSafe-append alive one more quiet.0 (rw same rest.0),
      λ k. rw (alive_after-append alive one more, same) (rest.1 k),
    )

resource-IsSafe :
    (l : ClientListener) (class : List ℕ) (id : ℕ) (alive : Alive) (lost : ℕ → ℕ)
    → Accounts alive l lost
    → IsSafe alive (on_resource_created l class id)
      × (alive_after alive (on_resource_created l class id) ≡ alive)
unfolding on_resource_created
resource-IsSafe l class id alive lost h = elim (Bool-cases (eq_string class wl_buffer_class)) [
  | inl e ↦ rw e (called-IsSafe buffer_created l (number id ∷ []) alive lost h)
  | inr e ↦ rw e (tt, refl)
]

pub client_run-Accounts :
    (es : List ClientEvent) (s : ClientState) (alive : Alive) (lost : ℕ → ℕ)
    → Accounts alive s.listener lost
    → let r = client_run es s in
      IsSafe alive r.1
      × Accounts (alive_after alive r.1) r.0.listener (λ k. overwritten es s k + lost k)
unfolding client_run client_step overwritten on_wire_message_end on_registry_created on_sync_done
client_run-Accounts [] s alive lost h = (tt, λ k. omega (arith, h k))
client_run-Accounts (sets slot ∷ es) s alive lost h =
    let set = set_callback slot s.next s.listener in
    let next : ClientState = record { next = s.next + 1; listener = set.0 } in
    let one = set_callback-Accounts slot s.next s.listener alive lost h in
    let alive' = alive_after alive set.1 in
    let rest =
      client_run-Accounts es next alive' (λ k. is_in k (in_slot slot s.listener) + lost k) one.1 in
    let more = (client_run es next).1 in
    (
      IsSafe-append alive set.1 more one.0 rest.0,
      λ k. rw (alive_after-append alive set.1 more) (omega (arith, rest.1 k)),
    )
client_run-Accounts (message wire object_id opcode answer ∷ es) s alive lost h =
    let values =
      object_of s.listener.js_object ∷ words wire ∷ number object_id ∷ number opcode ∷ [] in
    let rest = client_run-Accounts es s alive lost h in
    rw (message_call s.listener wire object_id opcode answer) (
      quiet-first alive (call_if s.listener.wire_message_cb values) (client_run es s).1
        (client_run es s).0.listener (λ k. overwritten es s k + lost k)
        (called-IsSafe wire_message s.listener values alive lost h) rest)
client_run-Accounts (message_end fds_in ∷ es) s alive lost h =
    let values = object_of s.listener.js_object ∷ fds_value fds_in ∷ [] in
    quiet-first alive (on_wire_message_end s.listener fds_in) (client_run es s).1
      (client_run es s).0.listener (λ k. overwritten es s k + lost k)
      (called-IsSafe wire_message_end s.listener values alive lost h)
      (client_run-Accounts es s alive lost h)
client_run-Accounts (registry object id ∷ es) s alive lost h =
    quiet-first alive (on_registry_created s.listener object id) (client_run es s).1
      (client_run es s).0.listener (λ k. overwritten es s k + lost k)
      (called-IsSafe registry_created s.listener (external object ∷ number id ∷ []) alive lost h)
      (client_run-Accounts es s alive lost h)
client_run-Accounts (synced id ∷ es) s alive lost h =
    quiet-first alive (on_sync_done s.listener id) (client_run es s).1 (client_run es s).0.listener
      (λ k. overwritten es s k + lost k)
      (called-IsSafe sync_done s.listener (number id ∷ []) alive lost h)
      (client_run-Accounts es s alive lost h)
client_run-Accounts (resource class id ∷ es) s alive lost h =
    quiet-first alive (on_resource_created s.listener class id) (client_run es s).1
      (client_run es s).0.listener (λ k. overwritten es s k + lost k)
      (resource-IsSafe s.listener class id alive lost h) (client_run-Accounts es s alive lost h)

-- The end of a client: with a function for its destruction, all its references are deleted after
-- that is called, and without one, none is.
pub on_client_destroyed_lem :
    (l : ClientListener) (alive : Alive) (lost : ℕ → ℕ)
    → Accounts alive l lost
    → IsSafe alive (on_client_destroyed l)
      × (l.destroy_cb ≡ none
          → (k : ℕ)
          → alive_after alive (on_client_destroyed l) k ≡ is_among k (references l) + lost k)
      × ((cb : ℕ)
          → l.destroy_cb ≡ some cb
          → (k : ℕ) → alive_after alive (on_client_destroyed l) k ≡ lost k)
unfolding on_client_destroyed
on_client_destroyed_lem l alive lost h = elim (Option-cases l.destroy_cb) [
  | inl e ↦
      let run : on_client_destroyed l ≡ [] = ground arith in
      rw run (tt, λ n k. h k, λ cb n. absurd (ground arith))
  | inr (cb, e) ↦
      let all = delete_all_lem (references l) alive lost h in
      let here : 1 ≤ alive cb =
        (let set : is_in cb l.destroy_cb ≡ 1 = rw e (bit_refl cb) in omega (arith, h cb)) in
      let run : on_client_destroyed l
          ≡ call_function cb (object_of l.js_object ∷ []) ∷ delete_all (references l) =
        ground arith in
      rw run ((here, all.0), λ n. absurd (ground arith), λ c n. all.1)
]
