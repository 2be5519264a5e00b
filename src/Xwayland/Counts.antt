-- ===== src/Xwayland/Counts.antt =====
-- What shutdown and spawn_xserver add up to (westfield-xwayland.c).
use westfield.Prelude.{
  ℕ, ◌≡◌, refl, inl, inr, ℤ, pos, negsuc, eq_ℤ, true, Option, none, some, List, [], Bool-cases,
  Option-cases, arith,
}
use westfield.Xwayland.Server.{
  Action, Launcher, westfield_xserver_shutdown, SpawnAnswers, fork_xserver, spawn_xserver,
}
use westfield.Xwayland.Events.{bit, closes, calls, frees, Avoids}

pub eq_ℤ-refl : (z : ℤ) → eq_ℤ z z ≡ true
eq_ℤ-refl (pos n) = ground arith
eq_ℤ-refl (negsuc n) = ground arith

-- What shutdown adds up to.
pub shutdown-counts :
    (l : Launcher)
    → let xs = (westfield_xserver_shutdown l).1 in
      (closes l.unix_fd xs ≡ 1) × (calls xs ≡ bit l.destroyed_func) × (frees xs ≡ 0)
unfolding westfield_xserver_shutdown
shutdown-counts l = elim (Bool-cases (eq_ℤ l.pid (pos 0))) [
  | inl e ↦ elim (Bool-cases l.destroyed_func) [
    | inl d ↦ (ground (arith, eq_ℤ-refl l.unix_fd), ground arith, ground arith)
    | inr d ↦ (ground (arith, eq_ℤ-refl l.unix_fd), ground arith, ground arith)
  ]
  | inr e ↦ elim (Bool-cases l.destroyed_func) [
    | inl d ↦ (ground (arith, eq_ℤ-refl l.unix_fd), ground arith, ground arith)
    | inr d ↦ (ground (arith, eq_ℤ-refl l.unix_fd), ground arith, ground arith)
  ]
]

-- What spawning leaves as it is, and that it adds nothing to the counts.
pub record Quiet (l : Launcher) (r : ℤ × Launcher × List Action) : Type 0 where
  pub unix_fd : r.1.unix_fd ≡ l.unix_fd
  pub loop : r.1.loop ≡ l.loop
  pub source : r.1.source ≡ l.source
  pub destroyed : r.1.destroyed_func ≡ l.destroyed_func
  pub closed : closes l.unix_fd r.2 ≡ 0
  pub called : calls r.2 ≡ 0
  pub freed : frees r.2 ≡ 0

quiet : (l : Launcher) (pid : ℤ) → Quiet l (pid, l, [])
quiet l pid = record {
  unix_fd = refl;
  loop = refl;
  source = refl;
  destroyed = refl;
  closed = refl;
  called = refl;
  freed = refl;
}

fork_xserver-Quiet :
    (sv wm ends : ℤ × ℤ) (forked : Option ℕ) (l : Launcher)
    → Avoids l.unix_fd (record {
      wl_pair = some sv;
      wm_pair = some wm;
      display_pipe = some ends;
      cloexec_set = true;
      fork = forked;
    })
    → Quiet l (fork_xserver sv wm ends forked l)
unfolding fork_xserver
fork_xserver-Quiet sv wm ends none l h = record {
  unix_fd = refl;
  loop = refl;
  source = refl;
  destroyed = refl;
  closed = refl;
  called = refl;
  freed = refl;
}
fork_xserver-Quiet sv wm ends (some pid) l h = record {
  unix_fd = refl;
  loop = refl;
  source = refl;
  destroyed = refl;
  closed = ground arith;
  called = refl;
  freed = refl;
}

pub spawn_xserver-Quiet :
    (a : SpawnAnswers) (l : Launcher) → Avoids l.unix_fd a → Quiet l (spawn_xserver a l)
unfolding spawn_xserver
spawn_xserver-Quiet a l h = elim (Option-cases a.wl_pair) [
  | inl e ↦ rw (e, spawn_xserver) (quiet l (pos 1))
  | inr (sv, e) ↦ elim (Option-cases a.wm_pair) [
    | inl f ↦ rw (e, f, spawn_xserver) (quiet l (pos 1))
    | inr (wm, f) ↦ elim (Option-cases a.display_pipe) [
      | inl g ↦ rw (e, f, g, spawn_xserver) (quiet l (pos 1))
      | inr (ends, g) ↦ elim (Bool-cases a.cloexec_set) [
        | inr c ↦ rw (e, f, g, c, spawn_xserver) (quiet l (pos 1))
        | inl c ↦
            rw (e, f, g, c, spawn_xserver)
              (fork_xserver-Quiet sv wm ends a.fork l (
                (ground arith, ground arith),
                (ground arith, ground arith),
                (ground arith, ground arith),
              ))
      ]
    ]
  ]
]
