-- ===== src/Rtp/Listed.antt =====
-- What `rtp_server_update_stats` lists of the destinations of the RTP sink.
use jmpxrds.Base.{
  ℕ, zero, suc, ◌+◌, ◌<◌, ◌≤◌, min, List, [], ◌∷◌, map, Option, some, get_or, set, length,
  Bool-cases, All, ltb, ◌≡◌, ◌∙◌, inl, inr, refl, ap, arith, get_or-set_self, get_or-set_ne,
  length-set,
}
use jmpxrds.Rtp.Stats.{read_receivers, Served, Last, Control, update_stats, rate, diff}
use jmpxrds.Rtp.Address.{
  Client, client_text, clients_text, inet_ntoa, Lacks, inet_ntoa-Lacks, cut_port-append,
  tokens_from-clients_text,
}

-- From the place `i` on, the array has the clients' addresses, as many as find room, and is as it was
-- elsewhere; `n` is the place after them.
pub record IsListed (cs : List Client) (i : ℕ) (before : List ℕ) (r : List ℕ × ℕ) : Type 0 where
  pub count : r.1 ≡ min 64 (i + length cs)
  pub same_length : length (r.0) ≡ length before
  pub listed :
      (j : ℕ) → i + j < r.1 → get_or (r.0) (i + j) 0 ≡ get_or (map (λ (c : Client). c.host) cs) j 0
  pub earlier : (j : ℕ) → j < i → get_or (r.0) j 0 ≡ get_or before j 0

module _ (inet_aton : List ℕ → Option ℕ) where
  -- The address reads back from its text, and the port's text has no comma.
  pub record IsClient (c : Client) : Type 0 where
    pub reads : inet_aton (inet_ntoa c.host) ≡ some c.host
    pub port : Lacks 44 c.port_text

  IsListed-cons :
      (c : Client) (cs : List Client) (i : ℕ) (before : List ℕ) (r : List ℕ × ℕ)
      → i < 64
      → length before ≡ 64
      → IsListed cs (i + 1) (set before i c.host) r
      → IsListed (c ∷ cs) i before r
  IsListed-cons c cs i before r h l v = record {
    count = v.count ∙ ap (λ (n : ℕ). min 64 n) (omega arith);
    same_length = v.same_length ∙ length-set before i c.host;
    listed = listed_at;
    earlier = λ j g.
        v.earlier j (omega (arith, g))
        ∙ get_or-set_ne before i j c.host 0 (λ e. omega (arith, e, g));
  }
    where
      listed_at :
          (j : ℕ)
          → i + j < r.1
          → get_or (r.0) (i + j) 0 ≡ get_or (map (λ (c : Client). c.host) (c ∷ cs)) j 0
      listed_at zero g =
          ap (λ (n : ℕ). get_or (r.0) n 0) (omega arith)
          ∙ v.earlier i (omega arith)
          ∙ get_or-set_self before i c.host 0 (omega (arith, l, h))
      listed_at (suc j) g =
          ap (λ (n : ℕ). get_or (r.0) n 0) (omega arith) ∙ v.listed j (omega (arith, g))

  read_receivers-IsListed :
      (cs : List Client) (i : ℕ) (before : List ℕ)
      → All (λ c. IsClient c) cs
      → i ≤ 64
      → length before ≡ 64
      → (r : List ℕ × ℕ) × (read_receivers inet_aton (map client_text cs) i before ≡ some r)
        × IsListed cs i before r
  unfolding read_receivers
  read_receivers-IsListed [] i before v h l = (
    (before, i),
    refl,
    record {
      count = omega (arith, h);
      same_length = refl;
      listed = λ j g. absurd (omega (arith, g));
      earlier = λ j g. refl;
    },
  )
  read_receivers-IsListed (c ∷ cs) i before (v, vs) h l = elim (Bool-cases (ltb i 64)) [
    | inl e ↦
        let (r, made, listed) =
          read_receivers-IsListed cs (i + 1) (set before i c.host) vs (ground (arith, e))
            (length-set before i c.host ∙ l) in
        rw
          (
            e,
            cut_port-append (inet_ntoa c.host) c.port_text
                (inet_ntoa-Lacks c.host 58 (inr (omega arith))),
            v.reads,
          )
          (r, made, IsListed-cons c cs i before r (ground (arith, e)) l listed)
    | inr e ↦ rw e (
      (before, i),
      refl,
      record {
        count = ground (arith, h, e);
        same_length = refl;
        listed = λ j g. absurd (ground (arith, g));
        earlier = λ j g. refl;
      },
    )
  ]

  ports : (cs : List Client) → All (λ c. IsClient c) cs → All (λ c. Lacks 44 c.port_text) cs
  ports [] h = tt
  ports (c ∷ cs) (v, h) = (v.port, ports cs h)

  -- Where the sink's clients are the pairs of these addresses and ports, `update_stats`, unless it
  -- divides by 0 and for any rates and any list before, lists the addresses in order, up to 64 of
  -- them, and counts them.
  pub update_stats-IsListed :
      (cs : List Client) (s : Served) (l : Last) (ctl : Control) (x y : ℕ)
      → All (λ c. IsClient c) cs
      → s.clients ≡ clients_text cs
      → length ctl.receivers ≡ 64
      → rate (diff s.rtp_bytes l.rtp_bytes_served) (diff s.timestamp l.timestamp) ≡ some x
      → rate (diff s.rtcp_bytes l.rtcp_bytes_served) (diff s.timestamp l.timestamp) ≡ some y
      → (l' : Last) × (c' : Control) × (update_stats inet_aton s l ctl ≡ some (l', c'))
        × (c'.rtp_tx_kbytesps ≡ x)
        × (c'.rtcp_tx_kbytesps ≡ y)
        × IsListed cs 0 ctl.receivers (c'.receivers, c'.num_receivers)
  unfolding update_stats
  update_stats-IsListed cs s l ctl x y v text room e f =
      let (r, made, listed) = read_receivers-IsListed cs 0 ctl.receivers v (omega arith) room in
      (
        record {
          timestamp = s.timestamp;
          rtp_bytes_served = s.rtp_bytes;
          rtcp_bytes_served = s.rtcp_bytes;
        },
        record { rtp_tx_kbytesps = x; rtcp_tx_kbytesps = y; num_receivers = r.1; receivers = r.0 },
        rw (e, f, text, tokens_from-clients_text cs (ports cs v), made) refl,
        refl,
        refl,
        listed,
      )
