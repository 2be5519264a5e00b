-- ===== src/Feedback/Compiled.antt =====
-- feedback_compile of wlr_linux_dmabuf_v1.c: what compiled feedback means, and the descriptors of its
-- table.
use westfield.Drm.Intersection.{Checked, returned, aborted}
use westfield.Feedback.Compile.{
  Feedback, CompiledTranche, CompiledFeedback, compile_tranches, count_indices, TableFile,
  finish_compile, feedback_compile,
}
use westfield.Feedback.Index.{length-table_entries}
use westfield.Feedback.Table.{TableEntry, table_entries, table_length}
use westfield.Prelude.{
  ◌+◌, ◌*◌, ◌^◌, ◌≤◌, ◌≡◌, refl, inl, inr, ℤ, Bool, Option, none, some, List, [], ◌∷◌, ◌++◌, alloc,
  length, Option-cases, arith,
}
use westfield.Feedback.Decode.{
  Decodes, TranchesDecode, TranchesDecode-push, Checked-cases, count-Decodes,
  compile_tranches-Decode,
}

-- Compiled feedback and the feedback that it stands for.
pub record Compiles (f : Feedback) (c : CompiledFeedback) : Type 0 where
  pub main : c.main_device ≡ f.main_device
  pub table : c.table ≡ table_entries f.fallback.formats.formats
  pub size : c.table_size ≡ length c.table * 16
  pub tranches : TranchesDecode c.table (f.preferred ++ f.fallback ∷ []) c.tranches

-- From the indices of the preferred tranches on.
module _ (f : Feedback) (small : table_length f.fallback.formats.formats ≤ 2 ^ 16) where
  abbrev entries_of : List TableEntry
  entries_of = table_entries f.fallback.formats.formats

  last-Decodes :
      Decodes entries_of (count_indices (table_length f.fallback.formats.formats) 0) entries_of
  last-Decodes =
      let len = length-table_entries f.fallback.formats.formats in
      rw (← len) (
        count-Decodes f.fallback.formats small entries_of entries_of 0 (omega arith)
          (λ j e h. let start : 0 + j ≡ j = omega arith in rw start h))

  made-Compiles :
      (rw_fd ro_fd : ℤ) (ts : List CompiledTranche) (fate : List Bool) (c : CompiledFeedback)
      → TranchesDecode entries_of f.preferred ts
      → (finish_compile f rw_fd ro_fd (returned (some ts)) fate).compiled ≡ returned (some c)
      → Compiles f c
  unfolding finish_compile
  made-Compiles rw_fd ro_fd ts fate c d h =
      let last : CompiledTranche = record {
        target_device = f.fallback.target_device;
        flags = f.fallback.flags;
        indices = count_indices (table_length f.fallback.formats.formats) 0;
      } in
      let made : c ≡ record {
        main_device = f.main_device;
        table_fd = ro_fd;
        table = entries_of;
        table_size = table_length f.fallback.formats.formats * 16;
        tranches = ts ++ last ∷ [];
      } =
        ground arith in
      rw made (record {
        main = refl;
        table = refl;
        size = omega (arith, length-table_entries f.fallback.formats.formats);
        tranches =
            TranchesDecode-push entries_of f.preferred ts f.fallback last d
              (record { device = refl; flags = refl; entries = last-Decodes });
      })

  finish-Compiles :
      (rw_fd ro_fd : ℤ) (tranches : Checked (Option (List CompiledTranche))) (fate : List Bool)
      (c : CompiledFeedback)
      → ((ts : List CompiledTranche)
          → tranches ≡ returned (some ts)
          → TranchesDecode entries_of f.preferred ts)
      → (finish_compile f rw_fd ro_fd tranches fate).compiled ≡ returned (some c)
      → Compiles f c
  unfolding finish_compile
  finish-Compiles rw_fd ro_fd aborted fate c d h = ground arith
  finish-Compiles rw_fd ro_fd (returned none) fate c d h = ground arith
  finish-Compiles rw_fd ro_fd (returned (some ts)) fate c d h =
      made-Compiles rw_fd ro_fd ts fate c (d ts refl) h

-- Compiled feedback whose table 16 bits can count means what the feedback says: the table has the
-- pairs of the fallback tranche, and the indices of every tranche, the fallback tranche last, read
-- the pairs of that tranche from the table, in order, with its device and its flags.
pub feedback_compile-Compiles :
    (file : TableFile) (f : Feedback) (fate : List Bool) (c : CompiledFeedback)
    → table_length f.fallback.formats.formats ≤ 2 ^ 16
    → (feedback_compile file f fate).compiled ≡ returned (some c)
    → Compiles f c
unfolding feedback_compile
feedback_compile-Compiles file f fate c small h =
    let table_len = table_length f.fallback.formats.formats in
    let rest = (alloc fate).1 in
    let tranches = compile_tranches f.fallback.formats table_len f.preferred rest in
    elim (Option-cases file.pair) [
      | inl e ↦ absurd (ground arith)
      | inr ((rw_fd, ro_fd), e) ↦
          finish-Compiles f small rw_fd ro_fd tranches.0 tranches.1 c
            (λ ts d.
              compile_tranches-Decode f.fallback.formats small f.preferred rest ts table_len d)
            (ground arith)
    ]

-- The two descriptors of the table: once they are open, the writable one is closed in every case, and
-- the other is closed unless the compiled feedback keeps it.
pub feedback_compile-closes :
    (file : TableFile) (f : Feedback) (fate : List Bool) (rw_fd ro_fd : ℤ)
    → file.pair ≡ some (rw_fd, ro_fd)
    → let r = feedback_compile file f fate in
      (r.compiled ≡ returned none → r.closes ≡ rw_fd ∷ ro_fd ∷ [])
      × ((c : CompiledFeedback)
          → r.compiled ≡ returned (some c)
          → (r.closes ≡ rw_fd ∷ []) × (c.table_fd ≡ ro_fd))
unfolding feedback_compile finish_compile
feedback_compile-closes file f fate rw_fd ro_fd h =
    let table_len = table_length f.fallback.formats.formats in
    let tranches = compile_tranches f.fallback.formats table_len f.preferred (alloc fate).1 in
    elim (Checked-cases tranches.0) [
      | inl e ↦ (ground arith, λ c q. ground arith)
      | inr (inl e) ↦ (ground arith, λ c q. ground arith)
      | inr (inr (ts, e)) ↦ (ground arith, λ c q. ground arith)
    ]
