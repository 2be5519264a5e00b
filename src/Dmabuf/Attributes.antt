-- ===== src/Dmabuf/Attributes.antt =====
-- struct dmabuf_attributes of westfield-dmabuf.h and the functions of westfield-dmabuf.c. The three
-- arrays of four entries are functions of the index; Dmabuf/Planes shows that the indices stay below
-- four. A file descriptor is a C int, and -1 where there is none.
use westfield.Prelude.{
  ℕ, zero, suc, ◌+◌, ℤ, minus_one, is_nonneg, Bool, true, false, List, [], ◌∷◌, ◌==◌, if◌then◌else◌,
}

abbrev pub max_planes : ℕ
max_planes = 4

abbrev pub Array : Type 0 → Type 0
Array A = ℕ → A

-- `array[i] = v`
abbrev pub write : {A : Type 0} → Array A → ℕ → A → Array A
write array i v j = if i == j then v else array j

pub record DmabufAttributes : Type 0 where
  pub width : ℤ
  pub height : ℤ
  pub format : ℕ
  pub modifier : ℕ
  pub n_planes : ℕ
  pub offset : Array ℕ
  pub stride : Array ℕ
  pub fd : Array ℤ

-- The entries of an array from index `i`, for `n` rounds.
unfoldable pub entries : {A : Type 0} → ℕ → ℕ → Array A → List A
entries zero i array = []
entries (suc n) i array = array i ∷ entries n (i + 1) array

-- `array[i] = -1` from index `i`, for `n` rounds.
unfoldable pub clear : ℕ → ℕ → Array ℤ → Array ℤ
clear zero i array = array
clear (suc n) i array = clear n (i + 1) (write array i minus_one)

-- The attributes after the call, and the descriptors passed to close, in order.
unfoldable pub dmabuf_attributes_finish : DmabufAttributes → DmabufAttributes × List ℤ
unfolding entries clear
dmabuf_attributes_finish a =
    (record a { fd = clear a.n_planes 0 a.fd; n_planes = 0 }, entries a.n_planes 0 a.fd)

-- The loop of dmabuf_attributes_copy from index `i`: `dup i` is what fcntl(F_DUPFD_CLOEXEC) returns
-- for plane `i`. The result is whether all succeeded, the index reached, and the array.
unfoldable pub dup_planes : Array ℤ → ℕ → ℕ → Array ℤ → Bool × ℕ × Array ℤ
dup_planes dup zero i fd = (true, i, fd)
dup_planes dup (suc n) i fd =
    let fd' = write fd i (dup i) in
    let rest = dup_planes dup n (i + 1) fd' in if is_nonneg (dup i) then rest else (false, i, fd')

-- Whether the copy succeeded, `dst` after the call, and the descriptors closed.
unfoldable pub dmabuf_attributes_copy :
    Array ℤ → DmabufAttributes → Bool × DmabufAttributes × List ℤ
unfolding dup_planes entries clear
dmabuf_attributes_copy dup src =
    let (done, i, fd) = dup_planes dup src.n_planes 0 src.fd in
    if done
    then (true, record src { fd = fd }, [])
    else (false, record src { fd = clear i 0 fd; n_planes = 0 }, entries i 0 fd)
