-- ===== src/Xwayland/Listening.antt =====
-- What westfield_xserver_listen of westfield-xwayland.c gives and gives back after its search.
use westfield.Prelude.{
  ℕ, ◌≡◌, refl, ap, inl, inr, ℤ, true, none, some, List, [], ◌∷◌, ◌++◌, Bool-cases, Option-cases,
  arith,
}
use westfield.Xwayland.Counts.{eq_ℤ-refl}
use westfield.Xwayland.Display.{Search, locked, given_up, out_of_fuel}
use westfield.Xwayland.Events.{closes}
use westfield.Xwayland.Server.{
  Action, unlink_lock, free_server, free_launcher, Launcher, SocketAnswers, bind_to_unix_socket,
  listen_on,
}

-- The displays whose lock file is removed.
abbrev pub unlocked : List Action → List ℕ
unlocked [] = []
unlocked (unlink_lock d ∷ xs) = d ∷ unlocked xs
unlocked (_ ∷ xs) = unlocked xs

pub listen_on-made :
    {World : Type 0} (s : Search World) (a : SocketAnswers) (f l : Launcher)
    → (listen_on s a f).0 ≡ some l
    → (d : ℕ) × (w : World) × (fd : ℤ) × (s ≡ locked d w)
      × (a.socket ≡ some fd)
      × (a.bound ≡ true)
      × (a.listening ≡ true)
      × (l ≡ record f { display = d; unix_fd = fd; source = a.watched; loop = true })
      × (closes fd (listen_on s a f).1 ≡ 0)
      × (unlocked (listen_on s a f).1 ≡ [])
unfolding listen_on bind_to_unix_socket
listen_on-made out_of_fuel a f l h = absurd (ground arith)
listen_on-made (given_up d w) a f l h = absurd (ground arith)
listen_on-made (locked d w) a f l h = elim (Option-cases a.socket) [
  | inl e ↦ absurd (ground arith)
  | inr (fd, e) ↦ elim (Bool-cases a.bound) [
    | inr b ↦ absurd (ground arith)
    | inl b ↦ elim (Bool-cases a.listening) [
      | inr c ↦ absurd (ground arith)
      | inl c ↦ (d, w, fd, refl, e, b, c, ground arith, ground arith, ground arith)
    ]
  ]
]

pub listen_on-undone :
    {World : Type 0} (d : ℕ) (w : World) (a : SocketAnswers) (f : Launcher)
    → (listen_on (locked d w) a f).0 ≡ none
    → (unlocked (listen_on (locked d w) a f).1 ≡ d ∷ [])
      × ((fd : ℤ) → a.socket ≡ some fd → closes fd (listen_on (locked d w) a f).1 ≡ 1)
unfolding listen_on bind_to_unix_socket
listen_on-undone d w a f h = elim (Option-cases a.socket) [
  | inl e ↦ (ground arith, λ fd g. absurd (ground arith))
  | inr (fd, e) ↦ elim (Bool-cases a.bound) [
    | inr b ↦ (ground arith, λ fd' g. ground (arith, eq_ℤ-refl fd'))
    | inl b ↦ elim (Bool-cases a.listening) [
      | inr c ↦ (ground arith, λ fd' g. ground (arith, eq_ℤ-refl fd'))
      | inl c ↦ absurd (ground arith)
    ]
  ]
]

pub listen_on-works :
    {World : Type 0} (d : ℕ) (w : World) (a : SocketAnswers) (f : Launcher) (fd : ℤ)
    → a.socket ≡ some fd
    → a.bound ≡ true
    → a.listening ≡ true
    → (listen_on (locked d w) a f).0
      ≡ some (record f { display = d; unix_fd = fd; source = a.watched; loop = true })
unfolding listen_on bind_to_unix_socket
listen_on-works d w a f fd e b c = ground arith

pub unlocked-frees :
    (xs : List Action) → unlocked (xs ++ free_server ∷ free_launcher ∷ []) ≡ unlocked xs
unlocked-frees [] = refl
unlocked-frees (unlink_lock d ∷ xs) = ap (λ (l : List ℕ). d ∷ l) (unlocked-frees xs)
unlocked-frees (_ ∷ xs) = unlocked-frees xs
