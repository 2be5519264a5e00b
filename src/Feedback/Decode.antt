-- ===== src/Feedback/Decode.antt =====
-- What the indices of a compiled tranche mean: a client reads the table at them and finds the pairs of
-- the tranche (the loops of feedback_compile in wlr_linux_dmabuf_v1.c).
use westfield.Drm.FormatSet.{DrmFormatSet}
use westfield.Drm.Intersection.{Checked, returned, aborted}
use westfield.Feedback.Compile.{
  Tranche, CompiledTranche, u16, compile_indices, finish_tranche, compile_tranche, compile_tranches,
  count_indices,
}
use westfield.Feedback.Index.{get_drm_format_set_index-Finds, length-table_entries}
use westfield.Feedback.Table.{TableEntry, table_entries, table_length}
use westfield.Prelude.{
  ℕ, zero, suc, ◌+◌, ◌^◌, ◌<◌, ◌≤◌, ◌≡◌, refl, ◌∙◌, ◌⊎◌, inl, inr, Bool, Option, none, some, List,
  [], ◌∷◌, ◌++◌, length, get_elem?, ltb, Bool-cases, arith,
}
use mathlib.Core.List.{append_assoc, append-nil}

-- Reading the table at the indices gives the entries.
abbrev pub Decodes : List TableEntry → List ℕ → List TableEntry → Type 0
Decodes table [] [] = Unit
Decodes table [] (e ∷ es) = ⊥
Decodes table (i ∷ is) [] = ⊥
Decodes table (i ∷ is) (e ∷ es) = (get_elem? table i ≡ some e) × Decodes table is es

get_elem?-lt {ℓ} :
    {A : Type ℓ} (xs : List A) (i : ℕ) (a : A) → get_elem? xs i ≡ some a → i < length xs
get_elem?-lt [] i a h = ground arith
get_elem?-lt (x ∷ xs) zero a h = omega arith
get_elem?-lt (x ∷ xs) (suc i) a h = omega (arith, get_elem?-lt xs i a h)

-- A compiled tranche keeps the device and the flags, and its indices decode to its pairs.
pub record TrancheDecodes (table : List TableEntry) (t : Tranche) (c : CompiledTranche)
    : Type 0 where
  pub device : c.target_device ≡ t.target_device
  pub flags : c.flags ≡ t.flags
  pub entries : Decodes table c.indices (table_entries t.formats.formats)

abbrev pub TranchesDecode : List TableEntry → List Tranche → List CompiledTranche → Type 0
TranchesDecode table [] [] = Unit
TranchesDecode table [] (c ∷ cs) = ⊥
TranchesDecode table (t ∷ ts) [] = ⊥
TranchesDecode table (t ∷ ts) (c ∷ cs) = TrancheDecodes table t c × TranchesDecode table ts cs

pub TranchesDecode-push :
    (table : List TableEntry) (ts : List Tranche) (cs : List CompiledTranche) (t : Tranche)
    (c : CompiledTranche)
    → TranchesDecode table ts cs
    → TrancheDecodes table t c
    → TranchesDecode table (ts ++ t ∷ []) (cs ++ c ∷ [])
TranchesDecode-push table [] [] t c d e = (e, tt)
TranchesDecode-push table [] (x ∷ cs) t c d e = absurd d
TranchesDecode-push table (x ∷ ts) [] t c d e = absurd d
TranchesDecode-push table (x ∷ ts) (y ∷ cs) t c d e =
    (d.0, TranchesDecode-push table ts cs t c d.1 e)

pub Checked-cases {ℓ} :
    {A : Type ℓ} (x : Checked (Option A))
    → (x ≡ aborted) ⊎ ((x ≡ returned none) ⊎ ((a : A) × (x ≡ returned (some a))))
Checked-cases aborted = inl refl
Checked-cases (returned none) = inr (inl refl)
Checked-cases (returned (some a)) = inr (inr (a, refl))

-- The indices of a table that 16 bits can count.
module _ (fallback : DrmFormatSet) (small : table_length fallback.formats ≤ 2 ^ 16) where
  u16-index :
      (i : ℕ) (e : TableEntry) → get_elem? (table_entries fallback.formats) i ≡ some e → u16 i ≡ i
  u16-index i e h = omega (
    arith,
    get_elem?-lt (table_entries fallback.formats) i e h,
    length-table_entries fallback.formats,
  )

  -- Storing the indices of more pairs.
  compile_indices-Decodes :
      (capacity : ℕ) (out : List ℕ) (entries : List TableEntry) (result : List ℕ)
      → compile_indices fallback capacity out entries ≡ returned (some result)
      → (more : List ℕ) × (result ≡ out ++ more)
        × Decodes (table_entries fallback.formats) more entries
  unfolding compile_indices
  compile_indices-Decodes capacity out [] result h = ([], ground (arith, append-nil out), tt)
  compile_indices-Decodes capacity out ((f, m) ∷ es) result h =
      elim (get_drm_format_set_index-Finds fallback f m) [
        | inr (missing, absent) ↦ absurd (ground arith)
        | inl (j, found, here, present) ↦ elim (Bool-cases (ltb (length out) capacity)) [
          | inr full ↦ absurd (ground arith)
          | inl room ↦
              let start : 0 + j ≡ j = omega arith in
              let (more, same, rest) =
                compile_indices-Decodes capacity (out ++ u16 j ∷ []) es result (ground arith) in
              (
                u16 j ∷ more,
                same ∙ append_assoc out (u16 j ∷ []) more,
                (rw (u16-index j (f, m) here) here, rest),
              )
        ]
      ]

  finish-Decodes :
      (t : Tranche) (indices : Checked (Option (List ℕ))) (c : CompiledTranche)
      → ((out : List ℕ)
          → indices ≡ returned (some out)
          → Decodes (table_entries fallback.formats) out (table_entries t.formats.formats))
      → finish_tranche t indices ≡ returned (some c)
      → TrancheDecodes (table_entries fallback.formats) t c
  finish-Decodes t aborted c d h = ground arith
  finish-Decodes t (returned none) c d h = ground arith
  finish-Decodes t (returned (some out)) c d h =
      let made : c ≡ record { target_device = t.target_device; flags = t.flags; indices = out } =
        ground arith in
      rw made (record { device = refl; flags = refl; entries = d out refl })

  compile_tranche-Decodes :
      (t : Tranche) (fate : List Bool) (c : CompiledTranche) (capacity : ℕ)
      → (compile_tranche fallback capacity t fate).0 ≡ returned (some c)
      → TrancheDecodes (table_entries fallback.formats) t c
  unfolding compile_tranche
  compile_tranche-Decodes t fate c capacity h =
      let indices = compile_indices fallback capacity [] (table_entries t.formats.formats) in
      finish-Decodes t indices c
        (λ out e.
          let (more, same, decoded) =
            compile_indices-Decodes capacity [] (table_entries t.formats.formats) out e in
          rw same decoded)
        (ground arith)

  pub compile_tranches-Decode :
      (ts : List Tranche) (fate : List Bool) (cs : List CompiledTranche) (capacity : ℕ)
      → (compile_tranches fallback capacity ts fate).0 ≡ returned (some cs)
      → TranchesDecode (table_entries fallback.formats) ts cs
  unfolding compile_tranches
  compile_tranches-Decode [] fate cs capacity h = let e : cs ≡ [] = ground arith in rw e tt
  compile_tranches-Decode (t ∷ ts) fate cs capacity h =
      let first = compile_tranche fallback capacity t fate in
      let others = compile_tranches fallback capacity ts first.1 in
      elim (Checked-cases first.0) [
        | inl e ↦ absurd (ground arith)
        | inr (inl e) ↦ absurd (ground arith)
        | inr (inr (c, e)) ↦ elim (Checked-cases others.0) [
          | inl d ↦ absurd (ground arith)
          | inr (inl d) ↦ absurd (ground arith)
          | inr (inr (rest, d)) ↦
              let same : cs ≡ c ∷ rest = ground arith in
              rw same (
                compile_tranche-Decodes t fate c capacity e,
                compile_tranches-Decode ts first.1 rest capacity d,
              )
        ]
      ]

  -- The indices from `n` on, in a table that they end.
  pub count-Decodes :
      (table more : List TableEntry) (n : ℕ)
      → n + length more ≤ 2 ^ 16
      → ((j : ℕ) (e : TableEntry) → get_elem? more j ≡ some e → get_elem? table (n + j) ≡ some e)
      → Decodes table (count_indices (length more) n) more
  unfolding count_indices
  count-Decodes table [] n l h = tt
  count-Decodes table (e ∷ es) n l h =
      let here : u16 n ≡ n + 0 = omega arith in
      (
        rw here (h 0 e refl),
        count-Decodes table es (n + 1) (omega arith)
            (λ j e' q. let next : n + 1 + j ≡ n + suc j = omega arith in rw next (h (suc j) e' q)),
      )
