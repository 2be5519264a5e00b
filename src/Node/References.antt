-- ===== src/Node/References.antt =====
-- Which references of N-API are alive while the addon works, and a life of a client in
-- westfield-addon.c as a sequence of events.
use westfield.Node.Clients.{
  NodeEffect, create_reference, delete_reference, call_function, DisplayListener, ClientListener,
  on_client_created, on_client_destroyed, on_wire_message, on_wire_message_end, on_registry_created,
  on_sync_done, on_resource_created, Slot, client_destroyed, wire_message, wire_message_end,
  registry_created, buffer_created, sync_done, set_callback,
}
use westfield.Dmabuf.Ownership.{bit}
use westfield.Prelude.{
  ℕ, ◌+◌, ◌-◌, ◌≤◌, ◌≡◌, refl, ℤ, Option, none, some, List, [], ◌∷◌, ◌++◌, ◌==◌,
}

-- How many references with each number are alive.
abbrev pub Alive : Type 0
Alive = ℕ → ℕ

abbrev pub alive_after : Alive → List NodeEffect → Alive
alive_after alive [] = alive
alive_after alive (create_reference r ∷ es) = alive_after (λ k. alive k + bit (r == k)) es
alive_after alive (delete_reference r ∷ es) = alive_after (λ k. alive k - bit (r == k)) es
alive_after alive (call_function r values ∷ es) = alive_after alive es

-- Only references that are alive are deleted and called.
abbrev pub IsSafe : Alive → List NodeEffect → Type 0
IsSafe alive [] = Unit
IsSafe alive (create_reference r ∷ es) = IsSafe (λ k. alive k + bit (r == k)) es
IsSafe alive (delete_reference r ∷ es) = (1 ≤ alive r) × IsSafe (λ k. alive k - bit (r == k)) es
IsSafe alive (call_function r values ∷ es) = (1 ≤ alive r) × IsSafe alive es

pub alive_after-append :
    (alive : Alive) (es fs : List NodeEffect)
    → alive_after alive (es ++ fs) ≡ alive_after (alive_after alive es) fs
alive_after-append alive [] fs = refl
alive_after-append alive (create_reference r ∷ es) fs =
    alive_after-append (λ k. alive k + bit (r == k)) es fs
alive_after-append alive (delete_reference r ∷ es) fs =
    alive_after-append (λ k. alive k - bit (r == k)) es fs
alive_after-append alive (call_function r values ∷ es) fs = alive_after-append alive es fs

pub IsSafe-append :
    (alive : Alive) (es fs : List NodeEffect)
    → IsSafe alive es
    → IsSafe (alive_after alive es) fs
    → IsSafe alive (es ++ fs)
IsSafe-append alive [] fs a b = b
IsSafe-append alive (create_reference r ∷ es) fs a b =
    IsSafe-append (λ k. alive k + bit (r == k)) es fs a b
IsSafe-append alive (delete_reference r ∷ es) fs a b =
    (a.0, IsSafe-append (λ k. alive k - bit (r == k)) es fs a.1 b)
IsSafe-append alive (call_function r values ∷ es) fs a b = (a.0, IsSafe-append alive es fs a.1 b)

-- What happens to a client between its creation and its destruction; a callback that is set gets
-- the next number.
pub data ClientEvent : Type 0 where
  sets : Slot → ClientEvent
  message : List ℕ → ℕ → ℕ → ℕ → ClientEvent
  message_end : List ℤ → ClientEvent
  registry : ℕ → ℕ → ClientEvent
  synced : ℕ → ClientEvent
  resource : List ℕ → ℕ → ClientEvent

-- The next number, the listener, and what was asked of N-API.
pub record ClientState : Type 0 where
  pub next : ℕ
  pub listener : ClientListener

unfoldable pub client_step : ClientEvent → ClientState → ClientState × List NodeEffect
client_step (sets slot) s =
    let (l, es) = set_callback slot s.next s.listener in
    (record { next = s.next + 1; listener = l }, es)
client_step (message wire object_id opcode answer) s =
    (s, (on_wire_message s.listener wire object_id opcode answer).1)
client_step (message_end fds_in) s = (s, on_wire_message_end s.listener fds_in)
client_step (registry object id) s = (s, on_registry_created s.listener object id)
client_step (synced id) s = (s, on_sync_done s.listener id)
client_step (resource class id) s = (s, on_resource_created s.listener class id)

unfoldable pub client_run : List ClientEvent → ClientState → ClientState × List NodeEffect
client_run [] s = (s, [])
client_run (e ∷ es) s =
    let (s', one) = client_step e s in let (s'', more) = client_run es s' in (s'', one ++ more)

-- The life of a client, from on_client_created to on_client_destroyed.
abbrev pub client_life : DisplayListener → Option ℕ → ℕ → List ClientEvent → List NodeEffect
client_life d memory next events =
    let (l, made) = on_client_created d memory next in
    let (s, ran) = client_run events (record { next = next + 1; listener = l }) in
    made ++ ran ++ on_client_destroyed s.listener

-- The reference that an event overwrites.
abbrev pub in_slot : Slot → ClientListener → Option ℕ
in_slot client_destroyed l = l.destroy_cb
in_slot wire_message l = l.wire_message_cb
in_slot wire_message_end l = l.wire_message_end_cb
in_slot registry_created l = l.registry_created_cb
in_slot buffer_created l = l.buffer_created_cb
in_slot sync_done l = l.sync_done_cb

-- How often a number stands in a reference that may be NULL, and in several.
abbrev pub is_in : ℕ → Option ℕ → ℕ
is_in k none = 0
is_in k (some r) = bit (r == k)

abbrev pub is_among : ℕ → List (Option ℕ) → ℕ
is_among k [] = 0
is_among k (o ∷ os) = is_in k o + is_among k os

-- The references that a run overwrites.
unfoldable pub overwritten : List ClientEvent → ClientState → ℕ → ℕ
overwritten [] s k = 0
overwritten (sets slot ∷ es) s k =
    is_in k (in_slot slot s.listener) + overwritten es (client_step (sets slot) s).0 k
overwritten (e ∷ es) s k = overwritten es s k
