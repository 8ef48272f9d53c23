-- ===== src/Proxy/Requests/Served.antt =====
-- Every request to on_request is answered, and asks a hook for one address at most.
use byedpi.Prelude.{
  ℕ, ◌+◌, ◌≤◌, ◌≡◌, ◌≢◌, ◌⊎◌, true, ◌&&◌, Option, some, [], ◌∷◌, Bytes, length, byte_at, ◌==◌,
  if◌then◌else◌,
}
use byedpi.Prelude.Int.{pos}
use byedpi.Net.{Addr}
use byedpi.Proxy.{Settings, failed, flag_s5, s5_get_addr, s4_get_addr, http_get_addr, tls_get_addr}
use byedpi.Proxy.Requests.{
  Modes, Client, Hook, Asked, connects, associates, answer, Out, ended, is_connect, is_raw_tls,
  is_positive,
}

-- The hook that the request asks for, with the address that its own parser read from the `n` bytes;
-- `a0` is the address that is all zeros.
abbrev pub Asks : (Bytes → Option Addr) → Settings → Modes → Bytes → ℕ → Addr → Asked → Type 0
Asks lookup set m buf n a0 (connects a) =
    (((m.socks5 && byte_at buf 0 == 5) ≡ true)
      × (byte_at buf 1 ≡ 1)
      × ((o : ℕ) × (s5_get_addr lookup set buf 0 n a0 ≡ some (pos o, a))))
    ⊎ ((((m.socks4 && byte_at buf 0 == 4) ≡ true)
          × (s4_get_addr lookup set buf n a0 ≡ some (pos 0, a)))
        ⊎ (((is_connect m buf n ≡ some true) × (http_get_addr lookup buf n a0 ≡ some (pos 0, a)))
            ⊎ (((m.shadowsocks ≡ true)
                  × ((o : ℕ) × (s5_get_addr lookup set (0 ∷ 0 ∷ 0 ∷ buf) 0 (n + 3) a0
                        ≡ some (pos o, a))))
                ⊎ (((is_raw_tls m buf n ≡ some true)
                      × (tls_get_addr lookup set buf n a0 ≡ some (pos 0, a)))
                    ⊎ ((m.tcp ≡ true) × (a ≡ a0))))))
Asks lookup set m buf n a0 (associates a) =
    ((m.socks5 && byte_at buf 0 == 5) ≡ true)
    × (byte_at buf 1 ≡ 3)
    × (m.udp ≡ true)
    × ((o : ℕ) × (s5_get_addr lookup set buf 0 n a0 ≡ some (pos o, a)))

module _ (h : Hook) (R : Asked → Type 0) where
  -- 0: the methods of SOCKS5 were agreed upon, or the one hook that was asked, as it has to be, took the
  -- address. -1: no hook was asked, or one was, once, as it has to be, and did not take it.
  abbrev pub Served : Out → Type 0
  Served r =
      ((r.ret ≡ pos 0)
        × (((r.calls ≡ []) × (r.client.flag ≡ flag_s5))
            ⊎ ((q : Asked) × (r.calls ≡ q ∷ []) × (answer h q ≡ pos 0) × R q)))
      ⊎ ((r.ret ≡ failed)
          × ((r.calls ≡ []) ⊎ ((q : Asked) × (r.calls ≡ q ∷ []) × (answer h q ≢ pos 0) × R q)))

  -- Before errors are made -1: the number is a hook's, or none was asked.
  abbrev Answered : Out → Type 0
  Answered r =
      ((r.calls ≡ []) × ((r.ret ≢ pos 0) ⊎ (r.client.flag ≡ flag_s5)))
      ⊎ ((q : Asked) × (r.calls ≡ q ∷ []) × (r.ret ≡ answer h q) × R q)

  abbrev close : Out → Out
  close r = if is_positive r.ret then record r { ret = failed } else ended r

module _ (h : Hook) (lookup : Bytes → Option Addr) (set : Settings) (m : Modes) (buf : Bytes)
    (n : ℕ) (c : Client) (a : Addr) (fits : n ≤ length buf) where
  abbrev Right : Asked → Type 0
  Right = Asks lookup set m buf n a

  abbrev Good : Out → Type 0
  Good = Served h Right
