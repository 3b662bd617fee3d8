-- ===== src/Examples/ProtocolTests.antt =====
-- The upload protocol (node/handler.go).
use cess_scheduler.Prelude.{◌≡◌, refl, true, some, List, [], ◌∷◌, str}
use cess_scheduler.Proof.Modular.{set_bytes}
use cess_scheduler.Node.Checks.{verify_sign, get_file_state}
use cess_scheduler.Utils.Address.{encode_public_key_as_substrate_account}
use cess_scheduler.Node.Receive.{
  Arrival, message, nothing, final, handle, handler, dispatch, handle_head, check_state,
  create_file, handle_file, write_chunk, handle_end, close_file, start_backup,
}
use cess_scheduler.Node.Receive.Protocol.{view, Session}
use cess_scheduler.Node.Receive.Refinement.{handler_refines}
use cess_scheduler.Examples.NodeTests.{env, conn, head_msg, file_msg, end_msg}

-- A file, its end as the last one, and another head.
abbrev arrivals : List Arrival
arrivals =
    message head_msg
    ∷ nothing
    ∷ message file_msg
    ∷ message (record end_msg { last_mark = true; signmsg = 0 ∷ 0 ∷ 0 ∷ 0 ∷ 0 ∷ 0 ∷ 0 ∷ 3 ∷ [] })
    ∷ message head_msg
    ∷ []

handler_refines_example :
    Session env arrivals (view conn) (view (final (handler env conn arrivals)))
handler_refines_example = handler_refines env conn arrivals

-- The file is emptied and open again, and one backup was started.
last_view : view (final (handler env conn arrivals)) ≡ record {
  open_path = some (str "dir/f");
  store = (view (final (handler env conn arrivals))).store;
  backups = record { fid = str "h"; fsize = 3; chunks = [] } ∷ [];
}
unfolding handler handle dispatch handle_head check_state create_file handle_file write_chunk
    handle_end close_file start_backup set_bytes verify_sign get_file_state
    encode_public_key_as_substrate_account
last_view = refl
