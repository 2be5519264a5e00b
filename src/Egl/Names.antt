-- ===== src/Egl/Names.antt =====
-- The extensions that westfield-egl.c looks for: their names, as the literals of the calls of
-- check_egl_ext have them.
use westfield.Egl.Extensions.{check_egl_ext}
use westfield.Prelude.{ℕ, Bool, List, [], ◌∷◌, length}

pub data Extension : Type 0 where
  ext_platform_base : Extension
  khr_platform_gbm : Extension
  ext_platform_device : Extension
  ext_device_base : Extension
  ext_device_enumeration : Extension
  ext_device_query : Extension
  khr_debug : Extension
  khr_image_base : Extension
  ext_image_dma_buf_import : Extension
  ext_image_dma_buf_import_modifiers : Extension
  mesa_device_software : Extension
  ext_device_drm : Extension
  ext_device_drm_render_node : Extension
  khr_no_config_context : Extension
  mesa_configless_context : Extension
  khr_surfaceless_context : Extension
  img_context_priority : Extension

abbrev pub extension_name : Extension → List ℕ
extension_name ext_platform_base =
    69 ∷ 71 ∷ 76 ∷ 95 ∷ 69 ∷ 88 ∷ 84 ∷ 95 ∷ 112 ∷ 108 ∷ 97 ∷ 116 ∷ 102 ∷ 111 ∷ 114 ∷ 109 ∷ 95 ∷ 98
    ∷ 97 ∷ 115 ∷ 101 ∷ []
extension_name khr_platform_gbm =
    69 ∷ 71 ∷ 76 ∷ 95 ∷ 75 ∷ 72 ∷ 82 ∷ 95 ∷ 112 ∷ 108 ∷ 97 ∷ 116 ∷ 102 ∷ 111 ∷ 114 ∷ 109 ∷ 95 ∷ 103
    ∷ 98 ∷ 109 ∷ []
extension_name ext_platform_device =
    69 ∷ 71 ∷ 76 ∷ 95 ∷ 69 ∷ 88 ∷ 84 ∷ 95 ∷ 112 ∷ 108 ∷ 97 ∷ 116 ∷ 102 ∷ 111 ∷ 114 ∷ 109 ∷ 95 ∷ 100
    ∷ 101 ∷ 118 ∷ 105 ∷ 99 ∷ 101 ∷ []
extension_name ext_device_base =
    69 ∷ 71 ∷ 76 ∷ 95 ∷ 69 ∷ 88 ∷ 84 ∷ 95 ∷ 100 ∷ 101 ∷ 118 ∷ 105 ∷ 99 ∷ 101 ∷ 95 ∷ 98 ∷ 97 ∷ 115
    ∷ 101 ∷ []
extension_name ext_device_enumeration =
    69 ∷ 71 ∷ 76 ∷ 95 ∷ 69 ∷ 88 ∷ 84 ∷ 95 ∷ 100 ∷ 101 ∷ 118 ∷ 105 ∷ 99 ∷ 101 ∷ 95 ∷ 101 ∷ 110 ∷ 117
    ∷ 109 ∷ 101 ∷ 114 ∷ 97 ∷ 116 ∷ 105 ∷ 111 ∷ 110 ∷ []
extension_name ext_device_query =
    69 ∷ 71 ∷ 76 ∷ 95 ∷ 69 ∷ 88 ∷ 84 ∷ 95 ∷ 100 ∷ 101 ∷ 118 ∷ 105 ∷ 99 ∷ 101 ∷ 95 ∷ 113 ∷ 117 ∷ 101
    ∷ 114 ∷ 121 ∷ []
extension_name khr_debug = 69 ∷ 71 ∷ 76 ∷ 95 ∷ 75 ∷ 72 ∷ 82 ∷ 95 ∷ 100 ∷ 101 ∷ 98 ∷ 117 ∷ 103 ∷ []
extension_name khr_image_base =
    69 ∷ 71 ∷ 76 ∷ 95 ∷ 75 ∷ 72 ∷ 82 ∷ 95 ∷ 105 ∷ 109 ∷ 97 ∷ 103 ∷ 101 ∷ 95 ∷ 98 ∷ 97 ∷ 115 ∷ 101
    ∷ []
extension_name ext_image_dma_buf_import =
    69 ∷ 71 ∷ 76 ∷ 95 ∷ 69 ∷ 88 ∷ 84 ∷ 95 ∷ 105 ∷ 109 ∷ 97 ∷ 103 ∷ 101 ∷ 95 ∷ 100 ∷ 109 ∷ 97 ∷ 95
    ∷ 98 ∷ 117 ∷ 102 ∷ 95 ∷ 105 ∷ 109 ∷ 112 ∷ 111 ∷ 114 ∷ 116 ∷ []
extension_name ext_image_dma_buf_import_modifiers =
    69 ∷ 71 ∷ 76 ∷ 95 ∷ 69 ∷ 88 ∷ 84 ∷ 95 ∷ 105 ∷ 109 ∷ 97 ∷ 103 ∷ 101 ∷ 95 ∷ 100 ∷ 109 ∷ 97 ∷ 95
    ∷ 98 ∷ 117 ∷ 102 ∷ 95 ∷ 105 ∷ 109 ∷ 112 ∷ 111 ∷ 114 ∷ 116 ∷ 95 ∷ 109 ∷ 111 ∷ 100 ∷ 105 ∷ 102
    ∷ 105 ∷ 101 ∷ 114 ∷ 115 ∷ []
extension_name mesa_device_software =
    69 ∷ 71 ∷ 76 ∷ 95 ∷ 77 ∷ 69 ∷ 83 ∷ 65 ∷ 95 ∷ 100 ∷ 101 ∷ 118 ∷ 105 ∷ 99 ∷ 101 ∷ 95 ∷ 115 ∷ 111
    ∷ 102 ∷ 116 ∷ 119 ∷ 97 ∷ 114 ∷ 101 ∷ []
extension_name ext_device_drm =
    69 ∷ 71 ∷ 76 ∷ 95 ∷ 69 ∷ 88 ∷ 84 ∷ 95 ∷ 100 ∷ 101 ∷ 118 ∷ 105 ∷ 99 ∷ 101 ∷ 95 ∷ 100 ∷ 114 ∷ 109
    ∷ []
extension_name ext_device_drm_render_node =
    69 ∷ 71 ∷ 76 ∷ 95 ∷ 69 ∷ 88 ∷ 84 ∷ 95 ∷ 100 ∷ 101 ∷ 118 ∷ 105 ∷ 99 ∷ 101 ∷ 95 ∷ 100 ∷ 114 ∷ 109
    ∷ 95 ∷ 114 ∷ 101 ∷ 110 ∷ 100 ∷ 101 ∷ 114 ∷ 95 ∷ 110 ∷ 111 ∷ 100 ∷ 101 ∷ []
extension_name khr_no_config_context =
    69 ∷ 71 ∷ 76 ∷ 95 ∷ 75 ∷ 72 ∷ 82 ∷ 95 ∷ 110 ∷ 111 ∷ 95 ∷ 99 ∷ 111 ∷ 110 ∷ 102 ∷ 105 ∷ 103 ∷ 95
    ∷ 99 ∷ 111 ∷ 110 ∷ 116 ∷ 101 ∷ 120 ∷ 116 ∷ []
extension_name mesa_configless_context =
    69 ∷ 71 ∷ 76 ∷ 95 ∷ 77 ∷ 69 ∷ 83 ∷ 65 ∷ 95 ∷ 99 ∷ 111 ∷ 110 ∷ 102 ∷ 105 ∷ 103 ∷ 108 ∷ 101 ∷ 115
    ∷ 115 ∷ 95 ∷ 99 ∷ 111 ∷ 110 ∷ 116 ∷ 101 ∷ 120 ∷ 116 ∷ []
extension_name khr_surfaceless_context =
    69 ∷ 71 ∷ 76 ∷ 95 ∷ 75 ∷ 72 ∷ 82 ∷ 95 ∷ 115 ∷ 117 ∷ 114 ∷ 102 ∷ 97 ∷ 99 ∷ 101 ∷ 108 ∷ 101 ∷ 115
    ∷ 115 ∷ 95 ∷ 99 ∷ 111 ∷ 110 ∷ 116 ∷ 101 ∷ 120 ∷ 116 ∷ []
extension_name img_context_priority =
    69 ∷ 71 ∷ 76 ∷ 95 ∷ 73 ∷ 77 ∷ 71 ∷ 95 ∷ 99 ∷ 111 ∷ 110 ∷ 116 ∷ 101 ∷ 120 ∷ 116 ∷ 95 ∷ 112 ∷ 114
    ∷ 105 ∷ 111 ∷ 114 ∷ 105 ∷ 116 ∷ 121 ∷ []

-- A call of check_egl_ext, with fuel for every character.
unfoldable pub has_extension : List ℕ → Extension → Bool
has_extension exts e = check_egl_ext (length exts) exts (extension_name e)
