-- ===== src/Lib.antt =====
-- The native part of the Westfield compositor proxy: server/node/proxy/native/src. It offers
-- clients the dma-buf protocols on top of libwayland, with the pixel formats that the EGL renderer
-- reports, and starts Xwayland when an X client connects.
--
-- The parts and their files:
--
--   Drm: a set of pixel formats with their modifiers (drm_format_set.c, drm_format_set.h).
--     DrmFormat and DrmFormatSet are the two structs, without `len`, which is the length of the
--     list; each function keeps its name.
--   Dmabuf: the planes of a buffer (westfield-dmabuf.c) and the requests of
--     zwp_linux_buffer_params_v1 (params_add, params_create_common and the others of
--     wlr_linux_dmabuf_v1.c). A handler takes the user data of its resource, NULL being `none`,
--     and returns it with the errors, closes and events in order.
--   Feedback: the table of formats and the compiled tranches (get_drm_format_set_index,
--     feedback_compile), the two descriptors of the table's shared memory file
--     (allocate_shm_file_pair), the default feedback (set_default_feedback, the creation and the
--     end of the global), the feedback of surfaces, and the events that a client is sent
--     (linux_dmabuf_bind, feedback_send) of wlr_linux_dmabuf_v1.c.
--   Xwayland: the launcher (westfield-xwayland.c). The system's lock files are a world with
--     operations (Xwayland.Os); create_lockfile and the search for a display act on it; the
--     launcher itself is one record for struct westfield_xserver and struct westfield_xwayland,
--     and each function returns it with its actions in order. Xwayland.Events has the series of
--     events as a relation.
--   Egl: the extensions, the formats and the images of the renderer, the choice of the EGL device
--     for a DRM file descriptor, the set-up of the display and its end (westfield-egl.c). What the
--     EGL driver answers is a record (Egl.Formats.Driver for the formats); the sets are those of
--     Drm.
--   WlDrm: the wl_drm global and its buffers (wlr_drm.c).
--   Node: what westfield-addon.c keeps for a client and for Xwayland: the listeners, the
--     references to functions in JavaScript, and when they are called and deleted. A run of a
--     client is a list of events. Node.Drm is initDrm, which makes the renderer and the two
--     globals.
--   Files: the anonymous file of westfield-fdutils.c, and createMemoryMappedFile of
--     westfield-addon.c, which writes into it.
--   Buffer: addons (addon.c), and the end of a dma-buf buffer (westfield-buffer.c, and the buffer_
--     functions of wlr_linux_dmabuf_v1.c).
--   Prelude: tests on numbers, lists over the native numbers, C ints, and the outcomes of
--     allocations.
--   Tests: runs, and the theorems at concrete inputs.
--
-- The sets of Drm are what Egl reads from the driver, and what Feedback puts into the table and
-- announces and WlDrm announces; the descriptors that Dmabuf holds and closes are those that a
-- client sends in add requests.
--
-- The `goto retry` of westfield_xserver_listen runs on fuel; two tries for each display below the
-- first one that no lock file reaches, and one more, are enough. The loop of
-- createMemoryMappedFile that calls write runs on fuel too; one turn for each byte and one more
-- are enough, because the loop ends at a call of write that takes no byte.
--
-- An allocation takes the next outcome of a list of Booleans, and succeeds when the list has
-- ended. An assertion that fails, or a store past an array, is an outcome of its own (`aborted`).
-- What the kernel, libdrm and libwayland answer is a record of functions and Booleans that a
-- definition takes. Sums of uint32_t and uint64_t wrap as they do in C; the sizes of arrays in
-- memory do not wrap. The special modifiers of drm_fourcc.h are parameters.
--
-- Not modelled: libwayland (wayland-server, a copy of another project), code generated by
-- wayland-scanner, the headers of Node.js, the parts in JavaScript and TypeScript, log output, the
-- list of child processes of the launcher, which nothing reads, the functions of westfield-addon.c
-- that only pass their arguments on to libwayland or read a field, the tables of messages that it
-- builds from JavaScript objects, and what a function in JavaScript does while it is called.
pub mod Prelude
pub mod Drm
pub mod Dmabuf
pub mod Feedback
pub mod Xwayland
pub mod Egl
pub mod Buffer
pub mod WlDrm
pub mod Files
pub mod Node
pub mod Tests
