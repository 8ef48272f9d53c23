-- ===== src/Tests/Desync.antt =====
-- Witnesses and runs for the modules below Desync.
use byedpi.Desync.Udp.{UdpParams, Line, udp_packet, desync_udp, Ends, desync_udp-Ends}
use byedpi.Prelude.{
  Returns, ℕ, ◌+◌, has, ◌≡◌, refl, false, none, some, [], ◌∷◌, List, arith, replicate, load,
}
use byedpi.Prelude.Int.{pos, ◌+ℤ◌}
use byedpi.Desync.Offset.{gen_offset, plain_offset, Part, split, disorder, offset_rand, no_info}
use byedpi.Desync.Kernel.Queue.{Tiles, Pending}
use byedpi.Desync.Kernel.{
  call, send_range, send, undo_fake, restore_state, undo_ttl, undo_md5, sock_has_notsent, plain,
}
use byedpi.Desync.Fake.{FakeParams}
use byedpi.Desync.Split.{
  send_part, choose, after_part, send_rest, SplitParams, Call, Outcome, stop, split_loop,
}
use byedpi.Desync.Split.Tiling.{split_loop-Tiles}
use byedpi.Desync.Split.Total.{split_loop-Returns}
use byedpi.Desync.Split.Resume.{willing, refusing, part_at, resumed, split_loop_loses}

abbrev two_parts : List (Part × ℕ)
two_parts =
    (record { m = split; flag = 0; at = pos 1; r = 1; s = 0 }, 0)
    ∷ (record { m = disorder; flag = 0; at = pos 3; r = 1; s = 0 }, 0)
    ∷ []

abbrev no_fakes : FakeParams
no_fakes = record {
  fake_data = none;
  fake_http = [];
  fake_tls = [];
  fake_offset = none;
  fake_sni_list = [];
  fake_mod = 0;
  fake_tls_size = pos 0;
}

abbrev settings : SplitParams
settings = record {
  parts = [];
  md5sig = false;
  wait_send = false;
  fakes = no_fakes;
  tamps = record { mod_http = 0; tlsminor = none; tlsrec = [] };
  oob_char = (b'a', 0);
}

abbrev first_call : Call
first_call = resumed (replicate 8 65) 8 0

abbrev three_pieces : Outcome
three_pieces = stop (pos 8) 2 (record willing {
  sent =
      record { kind = plain; from = 3; to = 8 }
      ∷ record { kind = plain; from = 1; to = 3 }
      ∷ record { kind = plain; from = 0; to = 1 }
      ∷ [];
})

first_run :
    split_loop settings first_call 8 two_parts 0 0 0 no_info (λ i. 0) willing ≡ some three_pieces
unfolding split_loop send_part gen_offset plain_offset choose after_part send_rest has send
    send_range call load sock_has_notsent restore_state undo_fake undo_ttl undo_md5 ◌+ℤ◌
first_run = refl

split_loop-Tiles_example :
    Tiles 0 three_pieces.kernel.sent (0 + 8) × Pending none three_pieces.kernel.sent
split_loop-Tiles_example =
    split_loop-Tiles settings first_call 8 two_parts 0 0 0 no_info (λ i. 0) willing three_pieces 8
      refl (omega arith) (omega arith) (tt, refl, tt) first_run refl

split_loop-Returns_example :
    (r : Outcome) × (split_loop settings first_call 8 two_parts 0 0 0 no_info (λ i. 0) willing
      ≡ some r)
unfolding has
split_loop-Returns_example =
    split_loop-Returns settings first_call 8 two_parts 0 0 0 no_info (λ i. 0) willing (omega arith)
      (omega arith) (omega arith) refl (refl, no_rand, (refl, no_rand, tt))
  where
    no_rand : has 0 offset_rand ≡ false
    no_rand = refl

split_loop_loses_example :
    (r : Outcome) × (split_loop settings first_call 8
        ((part_at 3, 0) ∷ [])
        0
        0
        0
        no_info
        (λ i. 0)
        refusing
      ≡ some r)
    × (r.ret ≡ pos 0)
    × (r.kernel.sent ≡ [])
    × (split_loop settings
          (resumed (replicate 8 65) 8 r.part_sent)
          8
          ((part_at 3, 0) ∷ [])
          0
          0
          r.part_sent
          no_info
          (λ i. 1)
          r.kernel
        ≡ some (
            stop
              (pos 8)
              1
              (record willing { sent = record { kind = plain; from = 3; to = 8 } ∷ [] })))
split_loop_loses_example =
    split_loop_loses settings (replicate 8 65) 8 8 3 (λ i. 0) (λ i. 1) (omega arith) (omega arith)

abbrev udp_settings : UdpParams
udp_settings = record {
  udp_fake_count = 2;
  fake_data = none;
  fake_udp = 1 ∷ 2 ∷ 3 ∷ [];
  fake_offset = some (pos 1);
}

abbrev no_line : Line
no_line = record { replies = []; taken = [] }

desync_udp-Ends_example :
    Returns (desync_udp udp_settings (7 ∷ 8 ∷ []) no_line) (Ends [] 2 (2 ∷ 3 ∷ []) (7 ∷ 8 ∷ []))
unfolding udp_packet
desync_udp-Ends_example = desync_udp-Ends udp_settings (2 ∷ 3 ∷ []) (7 ∷ 8 ∷ []) no_line refl
