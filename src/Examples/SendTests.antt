-- ===== src/Examples/SendTests.antt =====
-- Sending several files over one connection (node).
use cess_scheduler.Prelude.{
  ℕ, zero, ◌≡◌, refl, Bool, true, false, Option, none, some, List, [], ◌∷◌, ◌++◌, replicate, str,
}
use cess_scheduler.Node.Message.{Message, build_close_msg, status_ok}
use cess_scheduler.Node.Send.{Peer, SendError, head_timeout}
use cess_scheduler.Node.SendAll.{Outgoing, Credentials, send_file}
use cess_scheduler.Node.SendAll.Order.{IsRun, send_file-IsRun}

abbrev peer : Option Bool → Peer
peer notice = record {
  content = some (str "abc");
  head_notice = notice;
  end_notice = some true;
  closed = λ k. false;
  read_err = λ k. false;
  send_buf = λ k. replicate 8192 0;
  tag_buf = λ k. replicate 2012 0;
}

-- The second file gets no answer.
abbrev peers : ℕ → Peer
peers zero = peer (some true)
peers _ = peer none

abbrev cr : Credentials
cr = record { filetype = 1; pkey = str "key"; signmsg = str "msg"; sign = str "sig" }

abbrev two_files : List Outgoing
two_files =
    record { name = str "a"; file_hash = str "ha" }
    ∷ record { name = str "b"; file_hash = str "hb" }
    ∷ []

stopped : (send_file peers cr two_files).1 ≡ some head_timeout
unfolding send_file
stopped = refl

send_file-IsRun_example :
    (ms : List Message) × (e : Option SendError) × (send_file peers cr two_files
      ≡ (ms ++ build_close_msg status_ok ∷ [], e))
    × IsRun peers cr 0 two_files ms e
send_file-IsRun_example = send_file-IsRun peers cr two_files
