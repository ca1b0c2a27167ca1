-- ===== src/Tests/Rtcp.antt =====
-- Control packets of a receiver.
use ozonebase.Prelude.{
  ℕ, ◌+◌, ◌*◌, ◌≡◌, false, some, List, [], ◌∷◌, ◌++◌, arith, length, length-replicate, replicate,
}
use ozonebase.Libgen.Outcome.{ok}
use ozonebase.Protocols.RtpSession.{update_rtcp_stats}
use ozonebase.Protocols.RtpCtrl.{
  RtpCtrl, Context, rr_packet, sdes_packet, reply, recv_packet, word_len,
}
use ozonebase.Protocols.RtpCtrl.Sdes.{recv_packet-sdes_packet}
use ozonebase.Protocols.RtpCtrl.Reply.{filling, reply_lem}
use ozonebase.Tests.Rtp.{near_wrap, no_time}

abbrev manager : RtpCtrl
manager = record {
  session = record near_wrap {
    cname = b'o' ∷ b'z' ∷ b'o' ∷ [];
    lost_packets = 5;
    lost_fraction = 128;
  };
  ssrc = 9;
  ssrc1 = 77;
  stopped = false;
  packet_queue = [];
}

abbrev stack : List ℕ
stack = replicate 256 0

abbrev context : Context
context = record { factor = λ ticks from to. 90000; now = no_time; stack = stack }

recv_packet-sdes_packet_example :
    let n = word_len (10 + length manager.session.cname) * 4 in
    recv_packet 2 context manager (sdes_packet manager.session ++ []) n ≡ ok (some n, manager)
recv_packet-sdes_packet_example =
    recv_packet-sdes_packet 0 context manager [] (omega arith) (omega arith) (λ e. omega (arith, e))

reply_lem_example :
    let r' = record manager { session = update_rtcp_stats manager.session } in
    let packet = rr_packet r' ++ (sdes_packet r'.session ++ filling r'.session stack) in
    reply manager stack ≡ ok (record r' { packet_queue = packet ∷ [] })
reply_lem_example = reply_lem manager stack (length-replicate {A = ℕ} 256 0) (omega arith)

abbrev long_name : RtpCtrl
long_name = record manager { session = record near_wrap { cname = replicate 215 b'x' } }
