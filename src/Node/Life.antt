-- ===== src/Node/Life.antt =====
-- A client in westfield-addon.c, from on_client_created to on_client_destroyed.
use westfield.Dmabuf.Ownership.{bit}
use westfield.Node.Accounts.{client_run-Accounts, on_client_destroyed_lem}
use westfield.Node.Clients.{DisplayListener, references, on_client_created, on_client_destroyed}
use westfield.Node.References.{
  Alive, alive_after, IsSafe, alive_after-append, IsSafe-append, ClientEvent, ClientState,
  client_run, client_life, is_among, overwritten,
}
use westfield.Prelude.{ℕ, ◌+◌, ◌≤◌, ◌≡◌, none, some, List, ◌++◌, ◌==◌, arith}

-- A client after its creation, at number `next`, with nothing in the listener's memory.
abbrev pub created : DisplayListener → ℕ → ClientState
created d next = record { next = next + 1; listener = (on_client_created d none next).0 }

-- The state in which the client is destroyed.
abbrev pub destroyed : DisplayListener → ℕ → List ClientEvent → ClientState
destroyed d next events = (client_run events (created d next)).0

-- Whatever happens to a client, as long as its listener starts with NULL for sync_done_cb_ref, only
-- references that are alive are called and deleted. If a function for its destruction was set, only
-- the references that were overwritten are left of those that were made for the client; without
-- one, all of them are left.
pub client_life-IsSafe :
    (d : DisplayListener) (next : ℕ) (events : List ClientEvent) (alive : Alive)
    → 1 ≤ alive d.client_creation_cb
    → let es = client_life d none next events in
      let l = (destroyed d next events).listener in
      IsSafe alive es
      × ((cb : ℕ)
          → l.destroy_cb ≡ some cb
          → (k : ℕ) → alive_after alive es k ≡ overwritten events (created d next) k + alive k)
      × (l.destroy_cb ≡ none
          → (k : ℕ)
          → alive_after alive es k
            ≡ is_among k (references l) + (overwritten events (created d next) k + alive k))
unfolding on_client_created
client_life-IsSafe d next events alive h =
    let made = (on_client_created d none next).1 in
    let alive' : Alive = λ k. alive k + bit (next == k) in
    let run = client_run events (created d next) in
    let ran = client_run-Accounts events (created d next) alive' alive (λ k. omega arith) in
    let l = run.0.listener in
    let alive'' = alive_after alive' run.1 in
    let ended =
      on_client_destroyed_lem l alive'' (λ k. overwritten events (created d next) k + alive k)
        ran.1 in
    let rest = run.1 ++ on_client_destroyed l in
    let split = alive_after-append alive' run.1 (on_client_destroyed l) in
    (
      (omega (arith, h), IsSafe-append alive' run.1 (on_client_destroyed l) ran.0 ended.0),
      λ cb e k. rw split (ended.2 cb e k),
      λ e k. rw split (ended.1 e k),
    )
