-- ===== src/Node/Callbacks.antt =====
-- Whether the struct of callbacks of westfield-addon.c is used after it was freed.
use westfield.Node.Xwayland.{XwaylandCallbacks, CallbackEffect, call_js, free_callbacks, react}
use westfield.Prelude.{◌≡◌, refl, Bool, true, false, Option, none, some, List, [], ◌∷◌, ◌++◌, arith}
use westfield.Xwayland.Events.{calls}
use westfield.Xwayland.Server.{Action, call_starting, call_destroyed}

-- Whether the struct is freed, after effects on it that start with it as `freed` says; `none` where
-- it is used or freed after it was freed.
abbrev pub use_struct : Bool → List CallbackEffect → Option Bool
use_struct freed [] = some freed
use_struct true (call_js cb values ∷ es) = none
use_struct true (free_callbacks ∷ es) = none
use_struct false (call_js cb values ∷ es) = use_struct false es
use_struct false (free_callbacks ∷ es) = use_struct true es

pub react-append :
    (u : XwaylandCallbacks) (xs ys : List Action) → react u (xs ++ ys) ≡ react u xs ++ react u ys
unfolding react
react-append u [] ys = refl
react-append u (call_starting wm d ∷ xs) ys = ground (arith, react-append u xs ys)
react-append u (call_destroyed ∷ xs) ys = ground (arith, react-append u xs ys)
react-append u (_ ∷ xs) ys = react-append u xs ys

pub use_struct-append :
    (freed mid : Bool) (es fs : List CallbackEffect)
    → use_struct freed es ≡ some mid
    → use_struct freed (es ++ fs) ≡ use_struct mid fs
use_struct-append freed mid [] fs h = let same : freed ≡ mid = ground arith in rw same refl
use_struct-append true mid (call_js cb values ∷ es) fs h = absurd (ground arith)
use_struct-append true mid (free_callbacks ∷ es) fs h = absurd (ground arith)
use_struct-append false mid (call_js cb values ∷ es) fs h = use_struct-append false mid es fs h
use_struct-append false mid (free_callbacks ∷ es) fs h = use_struct-append true mid es fs h

-- Actions without the call of destroyed_func do not free the struct.
pub use_struct-alive :
    (u : XwaylandCallbacks) (xs : List Action)
    → calls xs ≡ 0
    → use_struct false (react u xs) ≡ some false
unfolding react
use_struct-alive u [] h = refl
use_struct-alive u (call_starting wm d ∷ xs) h = use_struct-alive u xs h
use_struct-alive u (call_destroyed ∷ xs) h = absurd (omega (arith, h))
use_struct-alive u (_ ∷ xs) h = use_struct-alive u xs h
