-- ===== src/Feedback/Compile.antt =====
-- feedback_compile and compiled_feedback_destroy of wlr_linux_dmabuf_v1.c. The size of the table in
-- bytes is 16 times its length, and the indices are numbers of 16 bits.
use westfield.Drm.FormatSet.{DrmFormatSet}
use westfield.Drm.Intersection.{Checked, returned, aborted}
use westfield.Feedback.Table.{TableEntry, table_entries, table_length, get_drm_format_set_index}
use westfield.Prelude.{
  ℕ, zero, suc, ◌+◌, ◌*◌, ◌%◌, ◌^◌, ℤ, Bool, true, false, Option, none, some, List, [], ◌∷◌, ◌++◌,
  Mem, alloc, length, ltb, ◌==◌, if◌then◌else◌,
}

-- struct wlr_linux_dmabuf_feedback_v1_tranche
pub record Tranche : Type 0 where
  pub target_device : ℕ
  pub flags : ℕ
  pub formats : DrmFormatSet

-- struct wlr_linux_dmabuf_feedback_v1, its last tranche apart. It has at least one.
pub record Feedback : Type 0 where
  pub main_device : ℕ
  pub preferred : List Tranche
  pub fallback : Tranche

-- struct wlr_linux_dmabuf_feedback_v1_compiled_tranche
pub record CompiledTranche : Type 0 where
  pub target_device : ℕ
  pub flags : ℕ
  pub indices : List ℕ

-- struct wlr_linux_dmabuf_feedback_v1_compiled. `table` is what the file of `table_fd` holds.
pub record CompiledFeedback : Type 0 where
  pub main_device : ℕ
  pub table_fd : ℤ
  pub table : List TableEntry
  pub table_size : ℕ
  pub tranches : List CompiledTranche

-- `(uint16_t) index`
abbrev pub u16 : ℕ → ℕ
u16 n = n % 2 ^ 16

-- The loops over the pairs of one tranche, from the state in which `out` has been stored, in an
-- array of `capacity` indices. A pair that the fallback tranche lacks ends them with NULL; a store
-- past the array would not be defined, and is `aborted`.
unfoldable pub compile_indices :
    DrmFormatSet → ℕ → List ℕ → List TableEntry → Checked (Option (List ℕ))
compile_indices fallback capacity out [] = returned (some out)
compile_indices fallback capacity out ((format, modifier) ∷ entries) =
    elim (get_drm_format_set_index fallback format modifier) [
      | none ↦ returned none
      | some index ↦ elim (ltb (length out) capacity) [
        | true ↦ compile_indices fallback capacity (out ++ u16 index ∷ []) entries
        | false ↦ aborted
      ]
    ]

abbrev pub finish_tranche : Tranche → Checked (Option (List ℕ)) → Checked (Option CompiledTranche)
finish_tranche t aborted = aborted
finish_tranche t (returned none) = returned none
finish_tranche t (returned (some indices)) =
    returned (some (record { target_device = t.target_device; flags = t.flags; indices = indices }))

-- One tranche but the last; wl_array_add may fail.
unfoldable pub compile_tranche : DrmFormatSet → ℕ → Tranche → Mem (Checked (Option CompiledTranche))
compile_tranche fallback table_len t fate =
    let (got, rest) = alloc fate in
    let indices = compile_indices fallback table_len [] (table_entries t.formats.formats) in
    (if got then finish_tranche t indices else returned none, rest)

-- All tranches but the last.
unfoldable pub compile_tranches :
    DrmFormatSet → ℕ → List Tranche → Mem (Checked (Option (List CompiledTranche)))
compile_tranches fallback table_len [] fate = (returned (some []), fate)
compile_tranches fallback table_len (t ∷ ts) fate =
    let (first, rest) = compile_tranche fallback table_len t fate in
    let (others, rest') = compile_tranches fallback table_len ts rest in
    elim first [
      | aborted ↦ (aborted, rest)
      | returned none ↦ (returned none, rest)
      | returned (some c) ↦ elim others [
        | aborted ↦ (aborted, rest')
        | returned none ↦ (returned none, rest')
        | returned (some cs) ↦ (returned (some (c ∷ cs)), rest')
      ]
    ]

-- `*index_ptr = n; n++` over `len` indices, from `n`.
unfoldable pub count_indices : ℕ → ℕ → List ℕ
count_indices zero n = []
count_indices (suc len) n = u16 n ∷ count_indices len (n + 1)

-- What the kernel answers: the two descriptors of allocate_shm_file_pair unless it fails, and
-- whether mmap succeeds.
pub record TableFile : Type 0 where
  pub pair : Option (ℤ × ℤ)
  pub mapped : Bool

-- The result, the descriptors closed, and the allocations left: calloc, then one array for each
-- tranche.
pub record CompileResult : Type 0 where
  pub compiled : Checked (Option CompiledFeedback)
  pub closes : List ℤ
  pub fate : List Bool

-- From the indices of the preferred tranches on.
unfoldable pub finish_compile :
    Feedback → ℤ → ℤ → Checked (Option (List CompiledTranche)) → List Bool → CompileResult
finish_compile f rw_fd ro_fd aborted fate = record {
  compiled = aborted;
  closes = rw_fd ∷ [];
  fate = fate;
}
finish_compile f rw_fd ro_fd (returned none) fate = record {
  compiled = returned none;
  closes = rw_fd ∷ ro_fd ∷ [];
  fate = fate;
}
finish_compile f rw_fd ro_fd (returned (some tranches)) fate =
    let table_len = table_length f.fallback.formats.formats in
    let (got, rest) = alloc fate in
    let last : CompiledTranche = record {
      target_device = f.fallback.target_device;
      flags = f.fallback.flags;
      indices = count_indices table_len 0;
    } in
    let compiled : CompiledFeedback = record {
      main_device = f.main_device;
      table_fd = ro_fd;
      table = table_entries f.fallback.formats.formats;
      table_size = table_len * 16;
      tranches = tranches ++ last ∷ [];
    } in
    if got
    then record { compiled = returned (some compiled); closes = rw_fd ∷ []; fate = rest }
    else record { compiled = returned none; closes = rw_fd ∷ ro_fd ∷ []; fate = rest }

unfoldable pub feedback_compile : TableFile → Feedback → List Bool → CompileResult
feedback_compile file f fate =
    let table_len = table_length f.fallback.formats.formats in
    let (got, rest) = alloc fate in
    let (tranches, rest') = compile_tranches f.fallback.formats table_len f.preferred rest in
    if table_len == 0
    then record { compiled = aborted; closes = []; fate = fate }
    else elim file.pair [
      | none ↦ record { compiled = returned none; closes = []; fate = fate }
      | some (rw_fd, ro_fd) ↦
          if file.mapped
          then if got
            then finish_compile f rw_fd ro_fd tranches rest'
            else record { compiled = returned none; closes = rw_fd ∷ ro_fd ∷ []; fate = rest }
          else record { compiled = returned none; closes = rw_fd ∷ ro_fd ∷ []; fate = fate }
    ]

unfoldable pub compiled_feedback_destroy : Option CompiledFeedback → List ℤ
compiled_feedback_destroy none = []
compiled_feedback_destroy (some c) = c.table_fd ∷ []
