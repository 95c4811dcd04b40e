-- ===== src/Lib.antt =====
-- Zelto OS: models of the C programs that hold the system's policy, and theorems on them.
--
-- The parts, and where they are modelled.
--   system/zsysd/main.c, the system broker, is Zsysd. Its global tables are the record State.Broker;
--   a table is the list of its slots. A function that changes the globals takes a Broker and returns
--   the next one with the list of events (writes to descriptors, launches, dialogs, file writes) that
--   it causes, in order. The modules follow the sections of the file: Csv (csv_contains,
--   mime_glob_match, share_target_matches, scheme_of), Wire (json_get, atoll, the texts of the
--   messages), Manifests (scan_manifest_dir, load_manifests), Grants (grant_find, grant_set, decide),
--   Notifs (notif_drop, handle_notify_post), Settings (the table, its file, its observers), Intents
--   (the mailboxes, the pending queue, handle_intent_resolve, route_notify_action), Handle
--   (handle_line) and Loop (the poll loop of main, one step for each accept, read and hang-up).
--   sdk/src/net.c, the network client, is Net: Url (parse_url), Request (the struct ZNetRequest, its
--   state machine net_advance, the permission gate of z_net_send), Response (finish_ok,
--   z_net_header), Frames (ws_parse_frames, ws_write_frame), Socket (z_ws_open, ws_advance), Ready
--   (z_net_collect_fds, z_net_handle_ready) and Io (the loops over write and read). The results of the
--   system calls of a poll round are given as
--   lists in Io.Poll. A function on a request or a socket returns the struct after it; a request
--   whose callback was called is freed, and Request.Flight then holds the response only. zsysd and
--   the client meet in the permission `network`, which zsysd's Grants decides.
--   sdk/src/storage.c is Prefs, as far as the preferences file goes (prefs_find, prefs_store,
--   z_prefs_get_str, z_prefs_set_str, the integer calls and z_prefs_remove): the file is its text.
--   sdk/src/app.c is Client, as far as the client half of the broker's protocol goes: the requests on
--   connections of their own (z_perm_status, z_perm_request, z_setting_get_str and its kin,
--   z_notify_post and its kin) and, in Client.Mailbox, the control connection (ctrl_handle_read,
--   ctrl_dispatch_line, the stashes of what waits for a handler). A connection is the record Conn: what
--   the broker answers to a message; Answers.broker_at is one that Zsysd's handle_line answers.
--   system/lock/main.c, the lock screen, is Lock: LockState, one function for each callback (the idle
--   timers, the settings observer, the swipe, the keypad), handle over the events, and lock_body as what
--   it asks of the surface. Its settings come through the client above.
--   system/shade/main.c, the notification shade, is Shade: the banners and their history (on_show,
--   on_hide), what the taps on a card send through the client, and the quick settings.
--   system/installer/main.c, the package installer, is Installer: the manifest and its text in Installer,
--   version_cmp in Versions, to_hex, verify_signature and verify_hashes in Verify, and mkdir_p,
--   copy_file, write_runtime_manifest and main in Install. A file system is what each path reads as.
--   libsodium, unzip, cp, rm and the outcome of each system call are the fields of Install.System. The
--   manifest it writes is the one that Zsysd.Manifests reads.
--   Number has signed numbers and their texts, Text the C string calls that the programs share, Prelude
--   the lists, tests and slot tables, and Tests runs the theorems on concrete states.
--
-- Conventions. A C string is the list of its bytes before the NUL; `clip n` is snprintf into a buffer
-- of n bytes. A descriptor is a number, and none stands for -1. What a process outside decides (the
-- consent dialog, the chooser, what the directories hold, whether a file can be written) is a field
-- of State.Env, one environment for each request line. Walks over strings that the source bounds by
-- the NUL take their rounds from the length of the text: Csv.walk one more than the list has bytes, as
-- each round takes an entry and its comma or ends, and Frames.parse_on one for each byte of the
-- buffer, as a frame has two at least. Wire.show has one round more than the number, which has no more
-- digits than that. Versions.cmp_from has one round more than the two texts have bytes, as each round
-- takes a byte off one of them or is the last.
--
-- Not modelled: sockets, poll, fork and exec themselves, the log lines, and the numeric limits of
-- int64_t in the notification ids, which count up from 1. A failing or partial write is not told
-- from one that succeeds in zsysd, as the source ignores the result. Of the client, memory that
-- cannot be had counts as a failed read, and neither z_net_cancel nor a callback that sends or
-- frees requests or sockets is modelled. Of app.c the Wayland half, the wait of z_notify_post that
-- pumps it, and what a callback does to the app in turn are left out. Of the lock screen the views
-- and repaints are left out, and idle timers may fire at any time; of the shade the views and the
-- pull gesture. In the installer directories are not files, symbolic links and dots in paths are
-- not followed; a long of version_cmp wraps around at 64 bits where its overflow, which C leaves
-- undefined, comes into play. libc's numbers are read without their overflow.
pub mod Prelude
pub mod Text
pub mod Zsysd
pub mod Net
pub mod Prefs
pub mod Number
pub mod Lock
pub mod Installer
pub mod Client
pub mod Shade
pub mod Tests
