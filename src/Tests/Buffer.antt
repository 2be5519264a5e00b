-- ===== src/Tests/Buffer.antt =====
-- Addons of two owners, and a buffer of one plane.
use westfield.Buffer.Addon.{Addon, has_addon, addon_init, addon_find}
use westfield.Buffer.Drop.{Ending, dmabuf_buffer, buffer_handle_resource_destroy}
use westfield.Buffer.Ended.{closings, frees, buffer_handle_resource_destroy-closed}
use westfield.Buffer.Lookup.{AreOwned, addon_find-init}
use westfield.Dmabuf.Attributes.{DmabufAttributes, write}
use westfield.Dmabuf.Ownership.{held}
use westfield.Dmabuf.Release.{IsContiguous}
use westfield.Drm.Intersection.{returned}
use westfield.Prelude.{ℕ, ◌≡◌, ◌≢◌, ◌⊎◌, refl, pos, minus_one, some, List, [], ◌∷◌, arith}

abbrev addons : List Addon
addons = record { address = 100; impl = 1; owner = 5 } ∷ []

-- The set has an addon with owner 5 and interface 1.
addon_find-init_example :
    (addons' : List Addon) × (addon_init 200 addons 5 1 ≡ returned addons')
    × AreOwned addons'
    × (addon_find addons' 5 1 ≡ some (record { address = 200; impl = 1; owner = 5 }))
    × ((o i : ℕ) → (o ≢ 5) ⊎ (i ≢ 1) → addon_find addons' o i ≡ addon_find addons o i)
addon_find-init_example =
    addon_find-init 200 addons 5 1 ((omega arith, omega arith), tt) (omega arith) (omega arith)

abbrev two_addons : List Addon
two_addons = record { address = 200; impl = 1; owner = 6 } ∷ addons

adds_second : addon_init 200 addons 6 1 ≡ returned two_addons
unfolding addon_init has_addon
adds_second = refl

abbrev one_plane : DmabufAttributes
one_plane = record {
  width = pos 4;
  height = pos 4;
  format = 1;
  modifier = 5;
  n_planes = 1;
  offset = λ i. 0;
  stride = λ i. 16;
  fd = write (λ i. minus_one) 0 (pos 9);
}

one_plane-IsContiguous : IsContiguous one_plane
one_plane-IsContiguous = (omega arith, λ i h. ground arith)

buffer_handle_resource_destroy-closed_example :
    (es : List Ending) × (buffer_handle_resource_destroy (dmabuf_buffer one_plane) ≡ returned es)
    × (closings (pos 9) es ≡ held (pos 9) one_plane.fd)
    × (frees es ≡ 1)
buffer_handle_resource_destroy-closed_example =
    buffer_handle_resource_destroy-closed one_plane (pos 9) one_plane-IsContiguous refl
