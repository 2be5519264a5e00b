-- ===== src/Feedback/Client.antt =====
-- A client that reads the events of a zwp_linux_dmabuf_feedback_v1 object, as the protocol tells it
-- to, against feedback_compile and feedback_send of wlr_linux_dmabuf_v1.c.
use westfield.Feedback.Announce.{
  Event, send_main_device, send_tranche_target_device, send_tranche_flags, send_tranche_formats,
  send_tranche_done, send_done, feedback_tranche_send, send_tranches, feedback_send,
}
use westfield.Feedback.Compile.{Tranche, Feedback, CompiledTranche, CompiledFeedback}
use westfield.Feedback.Compiled.{Compiles}
use westfield.Feedback.Decode.{Decodes, TrancheDecodes, TranchesDecode}
use westfield.Feedback.Table.{TableEntry, table_entries}
use westfield.Prelude.{
  ℕ, ◌≡◌, refl, Bool, true, false, none, some, List, [], ◌∷◌, ◌++◌, get_elem?, arith,
}
use mathlib.Core.List.{append_assoc, append-nil}

-- A tranche as the client sees it: its device, its flags and its pairs.
abbrev pub Seen : Type 0
Seen = ℕ × ℕ × List TableEntry

-- What the client has read: the main device, the tranche that is being sent and those that are done.
pub record Client : Type 0 where
  pub main_device : ℕ
  pub device : ℕ
  pub flags : ℕ
  pub entries : List TableEntry
  pub tranches : List Seen
  pub finished : Bool

abbrev pub fresh_client : Client
fresh_client = record {
  main_device = 0;
  device = 0;
  flags = 0;
  entries = [];
  tranches = [];
  finished = false;
}

-- The entries of the table at the indices; one that is out of range is passed over.
unfoldable pub read_table : List TableEntry → List ℕ → List TableEntry
read_table table [] = []
read_table table (i ∷ is) = elim (get_elem? table i) [
  | none ↦ read_table table is
  | some e ↦ e ∷ read_table table is
]

abbrev pub client_step : List TableEntry → Client → Event → Client
client_step table c (send_main_device d) = record c { main_device = d }
client_step table c (send_tranche_target_device d) = record c { device = d }
client_step table c (send_tranche_flags f) = record c { flags = f }
client_step table c (send_tranche_formats is) = record c { entries = read_table table is }
client_step table c send_tranche_done = record c {
  tranches = c.tranches ++ (c.device, c.flags, c.entries) ∷ [];
}
client_step table c send_done = record c { finished = true }
client_step table c _ = c

unfoldable pub read_events : List TableEntry → Client → List Event → Client
read_events table c [] = c
read_events table c (e ∷ es) = read_events table (client_step table c e) es

abbrev pub seen : Tranche → Seen
seen t = (t.target_device, t.flags, table_entries t.formats.formats)

unfoldable pub all_seen : List Tranche → List Seen
all_seen [] = []
all_seen (t ∷ ts) = seen t ∷ all_seen ts

read_table-Decodes :
    (table : List TableEntry) (is : List ℕ) (es : List TableEntry)
    → Decodes table is es
    → read_table table is ≡ es
unfolding read_table
read_table-Decodes table [] [] d = refl
read_table-Decodes table [] (e ∷ es) d = absurd d
read_table-Decodes table (i ∷ is) [] d = absurd d
read_table-Decodes table (i ∷ is) (e ∷ es) d =
    ground (arith, d.0, read_table-Decodes table is es d.1)

read_events-append :
    (table : List TableEntry) (c : Client) (es fs : List Event)
    → read_events table c (es ++ fs) ≡ read_events table (read_events table c es) fs
unfolding read_events
read_events-append table c [] fs = refl
read_events-append table c (e ∷ es) fs = read_events-append table (client_step table c e) es fs

-- Reading one tranche.
read_tranche :
    (table : List TableEntry) (c : Client) (t : Tranche) (compiled : CompiledTranche)
    → TrancheDecodes table t compiled
    → let c' = read_events table c (feedback_tranche_send compiled) in
      (c'.tranches ≡ c.tranches ++ seen t ∷ []) × (c'.main_device ≡ c.main_device)
unfolding read_events feedback_tranche_send
read_tranche table c t compiled d =
    let read =
      read_table-Decodes table compiled.indices (table_entries t.formats.formats) d.entries in
    (rw (read, d.device, d.flags) refl, refl)

read_tranches :
    (table : List TableEntry) (c : Client) (ts : List Tranche) (cs : List CompiledTranche)
    → TranchesDecode table ts cs
    → let c' = read_events table c (send_tranches cs) in
      (c'.tranches ≡ c.tranches ++ all_seen ts) × (c'.main_device ≡ c.main_device)
unfolding send_tranches all_seen
read_tranches table c [] [] d =
    (unfold read_events in ground (arith, append-nil c.tranches), unfold read_events in refl)
read_tranches table c [] (x ∷ cs) d = absurd d
read_tranches table c (t ∷ ts) [] d = absurd d
read_tranches table c (t ∷ ts) (x ∷ cs) d =
    let c' = read_events table c (feedback_tranche_send x) in
    let one = read_tranche table c t x d.0 in
    let rest = read_tranches table c' ts cs d.1 in
    let split = read_events-append table c (feedback_tranche_send x) (send_tranches cs) in
    (
      rw (split, rest.0, one.0) (append_assoc c.tranches (seen t ∷ []) (all_seen ts)),
      rw (split, rest.1) one.1,
    )

-- Reading what feedback_send sends of compiled feedback.
pub Compiles-read :
    (f : Feedback) (compiled : CompiledFeedback)
    → Compiles f compiled
    → let c = read_events compiled.table fresh_client (feedback_send compiled) in
      (c.main_device ≡ f.main_device)
      × (c.tranches ≡ all_seen (f.preferred ++ f.fallback ∷ []))
      × (c.finished ≡ true)
Compiles-read f compiled meaning =
    let start : Client = record fresh_client { main_device = compiled.main_device } in
    let read =
      read_tranches compiled.table start (f.preferred ++ f.fallback ∷ []) compiled.tranches
        meaning.tranches in
    let split =
      read_events-append compiled.table start (send_tranches compiled.tranches) (send_done ∷ []) in
    let opened : read_events compiled.table fresh_client (feedback_send compiled)
        ≡ read_events compiled.table start (send_tranches compiled.tranches ++ send_done ∷ []) =
      unfold read_events feedback_send in refl in
    rw (opened, split)
      (
        unfold read_events in rw (read.1) meaning.main,
        unfold read_events in read.0,
        unfold read_events in refl,
      )
