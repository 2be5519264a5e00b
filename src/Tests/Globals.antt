-- ===== src/Tests/Globals.antt =====
-- initDrm on the machine with one card, where the display can import buffers of one format.
use westfield.Drm.Intersection.{returned}
use westfield.Egl.Display.{
  EglState, EglAnswers, egl_create, query_device, set_formats, egl_init_display,
}
use westfield.Egl.Device.{open_render_node}
use westfield.Egl.Extensions.{check_egl_ext}
use westfield.Egl.Formats.{
  get_egl_dmabuf_formats, get_egl_dmabuf_modifiers, init_dmabuf_formats, init_formats, init_format,
  add_modifiers, add_implicit,
}
use westfield.Egl.Names.{extension_name, has_extension, ext_image_dma_buf_import}
use westfield.Egl.Setup.{
  SetupAnswers, make_context, egl_init, after_gbm, create_on_gbm, choose_platform,
  westfield_egl_egl_create_with_drm_fd, westfield_egl_new,
}
use westfield.Feedback.Compile.{feedback_compile, finish_compile, compile_tranches}
use westfield.Feedback.Default.{
  Manager, wlr_linux_dmabuf_v1_create_with_renderer, feedback_tranche_init_with_renderer,
  wlr_linux_dmabuf_v1_create, set_default_feedback, open_device, node_name, use_feedback,
  merge_tranches, merge_formats, merge_modifiers,
}
use westfield.WlDrm.Global.{WlDrm, wlr_drm_create, make_drm}
use westfield.Feedback.Table.{table_length}
use westfield.Node.Drm.{GlobalAnswers, InitDrm, create_globals, init_drm}
use westfield.Node.Offers.{Offers, init_drm-Offers}
use westfield.Drm.Format.{drm_format_add, drm_format_has}
use westfield.Drm.FormatSet.{drm_format_set_add, format_set_get_ref, drm_format_set_copy}
use westfield.Prelude.{◌≡◌, refl, pos, true, some, [], ◌∷◌, ◌++◌, elem, arith}
use westfield.Tests.Default.{card, one_card, device_of}
use westfield.Tests.Setup.{gbm_machine, gbm_only, display_exts}

-- The display has no list of modifiers, so the two fallback formats get the implicit one and the
-- linear one.
abbrev importing : EglAnswers
importing = record gbm_only {
  display_exts = λ d. some (display_exts ++ 32 ∷ extension_name ext_image_dma_buf_import);
  fallback_formats = 3 ∷ 4 ∷ [];
}

abbrev machine : SetupAnswers
machine = record gbm_machine { egl = importing }

abbrev globals : GlobalAnswers
globals = record {
  devices = one_card;
  fstat = device_of;
  get_device = λ fd. some card;
  dmabuf_global = true;
  drm_global = true;
}

abbrev started : InitDrm
started = init_drm 7 0 machine globals (47 ∷ []) [] [] []

-- A renderer with two formats of two modifiers each, and both globals.
runs :
    (s : EglState) × (m : Manager) × (d : WlDrm) × (started.renderer ≡ returned (some (pos 10, s)))
    × (started.dmabuf.manager ≡ returned (some m))
    × (started.drm.drm ≡ returned (some d))
    × (table_length s.formats.texture.formats ≡ 4)
unfolding init_drm create_globals westfield_egl_new westfield_egl_egl_create_with_drm_fd egl_create
    choose_platform create_on_gbm open_render_node egl_init egl_init_display query_device
    set_formats make_context after_gbm has_extension check_egl_ext get_egl_dmabuf_formats
    get_egl_dmabuf_modifiers init_dmabuf_formats init_formats init_format add_modifiers add_implicit
    drm_format_set_add format_set_get_ref drm_format_add drm_format_has table_length elem
    wlr_linux_dmabuf_v1_create_with_renderer feedback_tranche_init_with_renderer
    wlr_linux_dmabuf_v1_create set_default_feedback feedback_compile finish_compile compile_tranches
    open_device node_name use_feedback merge_tranches merge_formats merge_modifiers wlr_drm_create
    make_drm drm_format_set_copy
runs = (_, _, _, refl, refl, refl, refl)

init_drm-Offers_example : Offers 7 0 runs.0.formats.texture started
init_drm-Offers_example =
    init_drm-Offers 7 0 machine globals (47 ∷ []) [] [] [] (pos 10) runs.0 runs.3
      (omega (arith, runs.6))
