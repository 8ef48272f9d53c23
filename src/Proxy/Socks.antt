-- ===== src/Proxy/Socks.antt =====
-- An address written by s5_set_addr of proxy.c and read again by s5_get_addr.
use byedpi.Prelude.{
  ℕ, zero, suc, ◌+◌, ◌-◌, ◌≤◌, ◌<◌, ◌≡◌, refl, sym, ap, subst, ◌∙◌, true, false, Option, some, [],
  ◌∷◌, ◌++◌, arith, Bytes, read, load, overwrite, slice, take, drop, length, length-overwrite,
  load-slice, store-overwrite, ltb, if◌then◌else◌, Returns, Bool-cases, inl, inr,
}
use byedpi.Prelude.Int.{pos}
use byedpi.Net.{inet, inet6, Addr, is_inet}
use byedpi.Proxy.{
  Settings, port_bytes, port_of, s5_set_addr, s5_get_addr, s5_size, s5_port, s5_v4, s5_v6,
}

take-++ : (xs ys : Bytes) → take (length xs) (xs ++ ys) ≡ xs
take-++ [] ys = refl
take-++ (x ∷ xs) ys = ap (λ l. x ∷ l) (take-++ xs ys)

drop-++ : (xs ys : Bytes) → drop (length xs) (xs ++ ys) ≡ ys
drop-++ [] ys = refl
drop-++ (x ∷ xs) ys = drop-++ xs ys

length-++ : (xs ys : Bytes) → length (xs ++ ys) ≡ length xs + length ys
length-++ [] ys = omega arith
length-++ (x ∷ xs) ys = omega (arith, length-++ xs ys)

-- What is read inside a block that was written.
slice-front :
    (buf xs : Bytes) (j n : ℕ)
    → length xs ≤ length buf
    → j + n ≤ length xs
    → slice (overwrite buf 0 xs) j n ≡ slice xs j n
unfolding overwrite
slice-front buf xs j zero h k = refl
slice-front buf [] zero (suc n) h k = absurd (omega arith)
slice-front buf [] (suc j) (suc n) h k = absurd (omega arith)
slice-front [] (x ∷ xs) j (suc n) h k = absurd (omega arith)
slice-front (b ∷ buf) (x ∷ xs) zero (suc n) h k =
    ap (λ l. x ∷ l) (slice-front buf xs 0 n (omega arith) (omega arith))
slice-front (b ∷ buf) (x ∷ xs) (suc j) (suc n) h k =
    slice-front buf xs j (suc n) (omega arith) (omega arith)

slice-overwrite :
    (buf : Bytes) (i : ℕ) (xs : Bytes) (m j n : ℕ)
    → m ≡ i + j
    → i + length xs ≤ length buf
    → j + n ≤ length xs
    → slice (overwrite buf i xs) m n ≡ slice xs j n
unfolding overwrite
slice-overwrite buf zero xs m j n e h k =
    subst (λ t. slice (overwrite buf 0 xs) t n ≡ slice xs j n) (omega arith)
      (slice-front buf xs j n (omega arith) k)
slice-overwrite [] (suc i) xs m j n e h k = absurd (omega arith)
slice-overwrite (b ∷ buf) (suc i) xs zero j n e h k = absurd (omega arith)
slice-overwrite (b ∷ buf) (suc i) xs (suc m) j n e h k =
    slice-overwrite buf i xs m j n (omega arith) (omega arith) k

port_of-port_bytes : (p : ℕ) → p < 65536 → port_of (port_bytes p) ≡ p
port_of-port_bytes p h = omega arith

length-overwritten : (buf : Bytes) (i : ℕ) (xs : Bytes) → length (overwrite buf i xs) ≡ length buf
length-overwritten buf i xs = length-overwrite buf i xs

load-overwrite :
    (buf : Bytes) (i : ℕ) (xs : Bytes) (m j n : ℕ)
    → m ≡ i + j
    → i + length xs ≤ length buf
    → j + n ≤ length xs
    → load (overwrite buf i xs) m n ≡ some (slice xs j n)
load-overwrite buf i xs m j n e h k =
    load-slice (overwrite buf i xs) m n (rw (length-overwrite buf i xs) (omega arith))
    ∙ ap some (slice-overwrite buf i xs m j n e h k)

-- The kind, the address and the port of a block that s5_set_addr wrote at 3.
block_port :
    (buf : Bytes) (at : ℕ) (kind : ℕ) (ip : Bytes) (port m : ℕ)
    → m ≡ at + (1 + length ip)
    → at + (length ip + 3) ≤ length buf
    → load (overwrite buf at (kind ∷ (ip ++ port_bytes port))) m 2 ≡ some (port_bytes port)
block_port buf at kind ip port m e h =
    load-overwrite buf at (kind ∷ (ip ++ port_bytes port)) m (suc (length ip)) 2 (omega arith)
      (omega (arith, length-++ ip (port_bytes port)))
      (omega (arith, length-++ ip (port_bytes port)))
    ∙ ap (λ l. some (take 2 l)) (drop-++ ip (port_bytes port))

block_ip :
    (buf : Bytes) (at : ℕ) (kind : ℕ) (ip : Bytes) (port m n : ℕ)
    → m ≡ at + 1
    → n ≡ length ip
    → at + (length ip + 3) ≤ length buf
    → load (overwrite buf at (kind ∷ (ip ++ port_bytes port))) m n ≡ some ip
block_ip buf at kind ip port m n e l h = rw l (
    load-overwrite buf at (kind ∷ (ip ++ port_bytes port)) m 1 (length ip) e
      (omega (arith, length-++ ip (port_bytes port)))
      (omega (arith, length-++ ip (port_bytes port)))
    ∙ ap some (take-++ ip (port_bytes port)))

kind_at :
    (buf : Bytes) (at kind : ℕ) (ip : Bytes) (port : ℕ)
    → at < length buf
    → read (overwrite buf at (kind ∷ (ip ++ port_bytes port))) at ≡ some kind
unfolding overwrite
kind_at [] at kind ip port h = absurd (omega arith)
kind_at (b ∷ buf) zero kind ip port h = refl
kind_at (b ∷ buf) (suc at) kind ip port h = kind_at buf at kind ip port (omega arith)

not_less : (m k : ℕ) → k ≤ m → ltb m k ≡ false
not_less m k h = ground arith

-- The reading of a block that lies at `at + 3`.
read_v4 :
    (lookup : Bytes → Option Addr) (set : Settings) (buf : Bytes) (at m : ℕ) (a old : Addr)
    → length a.v4 ≡ 4
    → a.port < 65536
    → 10 ≤ m
    → at + 10 ≤ length buf
    → s5_get_addr lookup set (overwrite buf (at + 3) (1 ∷ (a.v4 ++ port_bytes a.port))) at m old
      ≡ some (pos 10, record old { family = inet; v4 = a.v4; port = a.port })
unfolding s5_get_addr s5_size s5_v4 s5_port
read_v4 lookup set buf at m a old l p h b = rw (not_less m 8 (omega arith)) (
    rw (kind_at buf (at + 3) 1 a.v4 a.port (omega arith)) (
      rw (not_less m 10 h) (
        rw (block_ip buf (at + 3) 1 a.v4 a.port (at + 4) 4 (omega arith) (sym l) (omega arith)) (
          rw (not_less (at + 10) 2 (omega arith)) (
            rw (block_port buf (at + 3) 1 a.v4 a.port (at + 10 - 2) (omega arith) (omega arith)) (
              ap (λ q. some (pos 10, record old { family = inet; v4 = a.v4; port = q }))
                (port_of-port_bytes a.port p)))))))

read_v6 :
    (lookup : Bytes → Option Addr) (set : Settings) (buf : Bytes) (at m : ℕ) (a old : Addr)
    → set.ipv6 ≡ true
    → length a.v6 ≡ 16
    → a.port < 65536
    → 22 ≤ m
    → at + 22 ≤ length buf
    → s5_get_addr lookup set (overwrite buf (at + 3) (4 ∷ (a.v6 ++ port_bytes a.port))) at m old
      ≡ some (pos 22, record old { family = inet6; v6 = a.v6; port = a.port })
unfolding s5_get_addr s5_size s5_v6 s5_port
read_v6 lookup set buf at m a old s l p h b = rw (not_less m 8 (omega arith)) (
    rw (kind_at buf (at + 3) 4 a.v6 a.port (omega arith)) (
      rw (not_less m 22 h) (
        rw s (
          rw (block_ip buf (at + 3) 4 a.v6 a.port (at + 4) 16 (omega arith) (sym l) (omega arith)) (
            rw (not_less (at + 22) 2 (omega arith)) (
              rw (block_port buf (at + 3) 4 a.v6 a.port (at + 22 - 2) (omega arith) (omega arith)) (
                ap (λ q. some (pos 22, record old { family = inet6; v6 = a.v6; port = q }))
                  (port_of-port_bytes a.port p))))))))

-- What s5_get_addr should find after s5_set_addr: the family, the address of that family, the port.
abbrev pub copied : Addr → Addr → Addr
copied a old =
    if is_inet a.family
    then record old { family = inet; v4 = a.v4; port = a.port }
    else record old { family = inet6; v6 = a.v6; port = a.port }

-- With IPv6 on and room for 22 bytes at `at`, s5_set_addr writes any address inside the buffer, and
-- s5_get_addr reads the same family, address and port there and returns the same length.
pub s5_get_addr-s5_set_addr :
    (lookup : Bytes → Option Addr) (set : Settings) (buf : Bytes) (at n : ℕ) (a old : Addr)
    → set.ipv6 ≡ true
    → length a.v4 ≡ 4
    → length a.v6 ≡ 16
    → a.port < 65536
    → 22 ≤ n
    → at + n ≤ length buf
    → Returns
        (s5_set_addr buf at n a false)
        (λ (len, b). s5_get_addr lookup set b at n old ≡ some (len, copied a old))
unfolding s5_set_addr
s5_get_addr-s5_set_addr lookup set buf at n a old s l4 l6 p h b =
    rw (not_less n 10 (omega arith)) (elim (Bool-cases (is_inet a.family)) [
      | inl y ↦ rw y (
          rw
            (store-overwrite buf (at + 3) (1 ∷ (a.v4 ++ port_bytes a.port))
              (omega (arith, length-++ a.v4 (port_bytes a.port))))
            (_, refl, read_v4 lookup set buf at n a old l4 p (omega arith) (omega arith)))
      | inr m ↦ rw m (
          rw (not_less n 22 h) (
            rw
              (store-overwrite buf (at + 3) (4 ∷ (a.v6 ++ port_bytes a.port))
                (omega (arith, length-++ a.v6 (port_bytes a.port))))
              (_, refl, read_v6 lookup set buf at n a old s l6 p h (omega arith))))
    ])
