-- ===== src/Node/Clients.antt =====
-- The listeners of a display and of a client in westfield-addon.c: createDisplay and
-- on_display_destroyed, on_client_created and on_client_destroyed, the six functions that set a
-- callback, and the handlers that call them. A reference of N-API is a number, NULL is `none`, and
-- napi_create_reference returns the number that it is given here. What a function of JavaScript does
-- while it is called is not modelled: the calls that it makes are later events.
use westfield.Egl.Extensions.{eq_string}
use westfield.Prelude.{ℕ, ◌+◌, ℤ, Option, none, some, List, [], ◌∷◌, ◌++◌, if◌then◌else◌}

-- The values that are passed to JavaScript.
pub data Value : Type 0 where
  object_of : ℕ → Value
  number external : ℕ → Value
  words : List ℕ → Value
  fds : List ℤ → Value
  null : Value

-- What is asked of N-API, in order.
pub data NodeEffect : Type 0 where
  create_reference delete_reference : ℕ → NodeEffect
  call_function : ℕ → List Value → NodeEffect

-- struct display_destruction_listener
pub record DisplayListener : Type 0 where
  pub client_creation_cb : ℕ
  pub global_created_cb : ℕ
  pub global_destroyed_cb : ℕ

-- struct client_destruction_listener
pub record ClientListener : Type 0 where
  pub js_object : ℕ
  pub destroy_cb : Option ℕ
  pub wire_message_cb : Option ℕ
  pub wire_message_end_cb : Option ℕ
  pub registry_created_cb : Option ℕ
  pub buffer_created_cb : Option ℕ
  pub sync_done_cb : Option ℕ

-- The references of createDisplay, from number `next` on.
unfoldable pub create_display : ℕ → DisplayListener × List NodeEffect
create_display next = (
  record {
    client_creation_cb = next;
    global_created_cb = next + 1;
    global_destroyed_cb = next + 2;
  },
  create_reference next ∷ create_reference (next + 1) ∷ create_reference (next + 2) ∷ [],
)

unfoldable pub on_display_destroyed : DisplayListener → List NodeEffect
on_display_destroyed d =
    delete_reference d.client_creation_cb
    ∷ delete_reference d.global_created_cb
    ∷ delete_reference d.global_destroyed_cb
    ∷ []

abbrev pub on_global_created : DisplayListener → ℕ → List NodeEffect
on_global_created d global_name = call_function d.global_created_cb (number global_name ∷ []) ∷ []

-- The listener is NULL once the display is being destroyed.
unfoldable pub on_global_destroyed : Option DisplayListener → ℕ → List NodeEffect
on_global_destroyed none global_name = []
on_global_destroyed (some d) global_name =
    call_function d.global_destroyed_cb (number global_name ∷ []) ∷ []

-- The listener comes from malloc, and sync_done_cb_ref is not set: `memory` is what is there.
unfoldable pub on_client_created : DisplayListener → Option ℕ → ℕ → ClientListener × List NodeEffect
on_client_created d memory next = (
  record {
    js_object = next;
    destroy_cb = none;
    wire_message_cb = none;
    wire_message_end_cb = none;
    registry_created_cb = none;
    buffer_created_cb = none;
    sync_done_cb = memory;
  },
  create_reference next ∷ call_function d.client_creation_cb (object_of next ∷ []) ∷ [],
)

-- `if (ref) napi_delete_reference(env, ref)`
abbrev pub delete_if : Option ℕ → List NodeEffect
delete_if none = []
delete_if (some r) = delete_reference r ∷ []

abbrev pub delete_all : List (Option ℕ) → List NodeEffect
delete_all [] = []
delete_all (o ∷ os) = delete_if o ++ delete_all os

-- The references of a listener, in the order in which on_client_destroyed deletes them.
abbrev pub references : ClientListener → List (Option ℕ)
references l =
    some l.js_object
    ∷ l.destroy_cb
    ∷ l.wire_message_cb
    ∷ l.wire_message_end_cb
    ∷ l.registry_created_cb
    ∷ l.sync_done_cb
    ∷ l.buffer_created_cb
    ∷ []

unfoldable pub on_client_destroyed : ClientListener → List NodeEffect
on_client_destroyed l = elim l.destroy_cb [
  | none ↦ []
  | some cb ↦ call_function cb (object_of l.js_object ∷ []) ∷ delete_all (references l)
]

-- A call of the function behind a reference, if it is set.
abbrev pub call_if : Option ℕ → List Value → List NodeEffect
call_if none values = []
call_if (some cb) values = call_function cb values ∷ []

-- The result that JavaScript returns, and 0 without a function.
unfoldable pub on_wire_message : ClientListener → List ℕ → ℕ → ℕ → ℕ → ℕ × List NodeEffect
on_wire_message l wire_message object_id opcode answer = elim l.wire_message_cb [
  | none ↦ (0, [])
  | some cb ↦ (
    answer,
    call_function cb
          (object_of l.js_object ∷ words wire_message ∷ number object_id ∷ number opcode ∷ [])
        ∷ [],
  )
]

abbrev pub fds_value : List ℤ → Value
fds_value [] = null
fds_value (fd ∷ more) = fds (fd ∷ more)

unfoldable pub on_wire_message_end : ClientListener → List ℤ → List NodeEffect
on_wire_message_end l fds_in =
    call_if l.wire_message_end_cb (object_of l.js_object ∷ fds_value fds_in ∷ [])

unfoldable pub on_registry_created : ClientListener → ℕ → ℕ → List NodeEffect
on_registry_created l registry registry_id =
    call_if l.registry_created_cb (external registry ∷ number registry_id ∷ [])

unfoldable pub on_sync_done : ClientListener → ℕ → List NodeEffect
on_sync_done l callback_id = call_if l.sync_done_cb (number callback_id ∷ [])

-- "wl_buffer"
abbrev pub wl_buffer_class : List ℕ
wl_buffer_class = 119 ∷ 108 ∷ 95 ∷ 98 ∷ 117 ∷ 102 ∷ 102 ∷ 101 ∷ 114 ∷ []

unfoldable pub on_resource_created : ClientListener → List ℕ → ℕ → List NodeEffect
on_resource_created l itf_name id =
    if eq_string itf_name wl_buffer_class then call_if l.buffer_created_cb (number id ∷ []) else []

-- The callbacks of a client that JavaScript sets.
pub data Slot : Type 0 where
  client_destroyed wire_message wire_message_end registry_created buffer_created sync_done : Slot

-- setClientDestroyedCallback, setWireMessageCallback, setWireMessageEndCallback,
-- setRegistryCreatedCallback, setBufferCreatedCallback and setSyncDoneCallback.
unfoldable pub set_callback : Slot → ℕ → ClientListener → ClientListener × List NodeEffect
set_callback client_destroyed r l = (record l { destroy_cb = some r }, create_reference r ∷ [])
set_callback wire_message r l = (record l { wire_message_cb = some r }, create_reference r ∷ [])
set_callback wire_message_end r l =
    (record l { wire_message_end_cb = some r }, create_reference r ∷ [])
set_callback registry_created r l =
    (record l { registry_created_cb = some r }, create_reference r ∷ [])
set_callback buffer_created r l = (record l { buffer_created_cb = some r }, create_reference r ∷ [])
set_callback sync_done r l = (record l { sync_done_cb = some r }, create_reference r ∷ [])
