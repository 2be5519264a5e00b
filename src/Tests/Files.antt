-- ===== src/Tests/Files.antt =====
-- A file of which the system writes two bytes at a time, and then none.
use westfield.Files.Anonymous.{
  FileAnswers, westfield_os_create_anonymous_file, create_memory_mapped_file,
}
use westfield.Files.Written.{
  IsAnonymous, westfield_os_create_anonymous_file-IsAnonymous, Writes,
  create_memory_mapped_file-Writes,
}
use westfield.Prelude.{ℕ, ◌≡◌, ℤ, pos, some, List, [], ◌∷◌, length, ltb, if◌then◌else◌}

abbrev answers : FileAnswers
answers = record {
  runtime_dir = some (47 ∷ 114 ∷ []);
  mkostemp = λ template. (pos 12, template);
  fallocate = λ fd size. 28;
}

abbrev two_twice : ℕ → List ℕ → ℤ
two_twice i contents = if ltb i 2 then pos 2 else pos 0

abbrev bytes : List ℕ
bytes = 1 ∷ 2 ∷ 3 ∷ 4 ∷ 5 ∷ []

westfield_os_create_anonymous_file-IsAnonymous_example :
    IsAnonymous answers 5 (westfield_os_create_anonymous_file answers 5 [])
westfield_os_create_anonymous_file-IsAnonymous_example =
    westfield_os_create_anonymous_file-IsAnonymous answers 5 []

create_memory_mapped_file-Writes_example :
    let r = create_memory_mapped_file answers two_twice bytes [] in
    Writes two_twice 0 bytes [] (r.1, r.2)
    × (r.0 ≡ (westfield_os_create_anonymous_file answers (length bytes) []).fd)
create_memory_mapped_file-Writes_example =
    create_memory_mapped_file-Writes answers two_twice bytes []
