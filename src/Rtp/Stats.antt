-- ===== src/Rtp/Stats.antt =====
-- rtp_server.c: `rtp_server_update_stats`. What GStreamer and the clock give is an argument, as is
-- `inet_aton`, by the address that it reads, if it reads one.
use jmpxrds.Base.{
  ℕ, ◌+◌, ◌-◌, ◌*◌, ◌/◌, ◌%◌, ◌^◌, List, [], ◌∷◌, ◌++◌, Option, none, some, set, ◌==◌, ltb,
  if◌then◌else◌,
}

abbrev pub rtp_srv_max_receivers : ℕ
rtp_srv_max_receivers = 64

-- `struct rtp_server_control`, without the process' number and the pointer to the server.
pub record Control : Type 0 where
  pub rtp_tx_kbytesps : ℕ
  pub rtcp_tx_kbytesps : ℕ
  pub num_receivers : ℕ
  pub receivers : List ℕ

-- The static variables of the function.
pub record Last : Type 0 where
  pub timestamp : ℕ
  pub rtp_bytes_served : ℕ
  pub rtcp_bytes_served : ℕ

-- What the clock and the two sinks answer.
pub record Served : Type 0 where
  pub timestamp : ℕ
  pub rtp_bytes : ℕ
  pub rtcp_bytes : ℕ
  pub clients : List ℕ

infixl 5 ◌>>=◌
abbrev ◌>>=◌ {ℓ κ} : {A : Type ℓ} {B : Type κ} → Option A → (A → Option B) → Option B
none >>= f = none
some a >>= f = f a

-- The tokens of `strtok_r` with the delimiter ',': `cur` is the token that has begun.
abbrev pub emit : List ℕ → List (List ℕ) → List (List ℕ)
emit [] ts = ts
emit (c ∷ cs) ts = (c ∷ cs) ∷ ts

unfoldable pub tokens_from : List ℕ → List ℕ → List (List ℕ)
tokens_from cur [] = emit cur []
tokens_from cur (c ∷ cs) =
    let after = tokens_from [] cs in
    let inside = tokens_from (cur ++ c ∷ []) cs in if c == 44 then emit cur after else inside

-- The token up to its ':'; without one, the function writes through a NULL pointer.
unfoldable pub cut_port : List ℕ → Option (List ℕ)
cut_port [] = none
cut_port (c ∷ cs) =
    let rest = cut_port cs in
    if c == 58 then some [] else elim rest [ none ↦ none | some r ↦ some (c ∷ r) ]

-- The loop over the tokens: the array and `i`.
unfoldable pub read_receivers :
    (List ℕ → Option ℕ) → List (List ℕ) → ℕ → List ℕ → Option (List ℕ × ℕ)
unfolding cut_port
read_receivers inet_aton [] i receivers = some (receivers, i)
read_receivers inet_aton (t ∷ ts) i receivers =
    if ltb i rtp_srv_max_receivers
    then elim (cut_port t) [
      | none ↦ none
      | some host ↦ elim (inet_aton host) [
        | none ↦ read_receivers inet_aton ts i receivers
        | some addr ↦ read_receivers inet_aton ts (i + 1) (set receivers i addr)
      ]
    ]
    else some (receivers, i)

-- A rate in 64 bits; `none` is a division by 0.
unfoldable pub rate : ℕ → ℕ → Option ℕ
rate bytediff timediff =
    let divisor = timediff * 1024 % 2 ^ 64 in
    if divisor == 0 then none else some ((bytediff * 1000000 % 2 ^ 64) / divisor)

-- The difference in 64 bits.
abbrev pub diff : ℕ → ℕ → ℕ
diff a b = (a + (2 ^ 64 - b)) % 2 ^ 64

-- The control and the static variables after a call; `none` is a crash.
unfoldable pub update_stats :
    (List ℕ → Option ℕ) → Served → Last → Control → Option (Last × Control)
unfolding read_receivers tokens_from rate
update_stats inet_aton s l ctl = do
  let timediff = diff s.timestamp l.timestamp
  rtp ← rate (diff s.rtp_bytes l.rtp_bytes_served) timediff
  rtcp ← rate (diff s.rtcp_bytes l.rtcp_bytes_served) timediff
  (receivers, n) ← read_receivers inet_aton (tokens_from [] s.clients) 0 ctl.receivers
  some (
    record {
      timestamp = s.timestamp;
      rtp_bytes_served = s.rtp_bytes;
      rtcp_bytes_served = s.rtcp_bytes;
    },
    record {
      rtp_tx_kbytesps = rtp;
      rtcp_tx_kbytesps = rtcp;
      num_receivers = n;
      receivers = receivers;
    },
  )
