-- ===== src/Rtp/Address.antt =====
-- The texts of addresses and of lists of clients, and what `rtp_server_update_stats` reads of them.
use jmpxrds.Base.{
  ℕ, ◌+◌, ◌/◌, ◌%◌, ◌<◌, ◌≤◌, List, [], ◌∷◌, ◌++◌, map, some, Bool-cases, false, All, ◌==◌, ltb,
  if◌then◌else◌, ◌≡◌, ◌≢◌, ◌⊎◌, ◌∙◌, inl, inr, refl, sym, ap, arith,
}
use mathlib.Core.List.{append-nil}
use jmpxrds.Rtp.Stats.{emit, tokens_from, cut_port}

-- `inet_ntoa`: the four bytes of an address in decimal, the first in memory first, with dots between.
abbrev pub decimal : ℕ → List ℕ
decimal n =
    if ltb n 10
    then (48 + n) ∷ []
    else if ltb n 100
    then (48 + n / 10) ∷ (48 + n % 10) ∷ []
    else (48 + n / 100) ∷ (48 + n / 10 % 10) ∷ (48 + n % 10) ∷ []

unfoldable pub inet_ntoa : ℕ → List ℕ
inet_ntoa a =
    decimal (a % 256)
    ++ (46
        ∷ (decimal (a / 256 % 256)
            ++ (46 ∷ (decimal (a / 65536 % 256) ++ (46 ∷ decimal (a / 16777216 % 256))))))

-- A destination of a sink: its address and the text of its port.
pub record Client : Type 0 where
  pub host : ℕ
  pub port_text : List ℕ

abbrev pub client_text : Client → List ℕ
client_text c = inet_ntoa c.host ++ 58 ∷ c.port_text

-- The property "clients" of a `multiudpsink`: pairs host:port with commas between.
unfoldable pub clients_text : List Client → List ℕ
clients_text [] = []
clients_text (c ∷ []) = client_text c
clients_text (c ∷ d ∷ cs) = client_text c ++ 44 ∷ clients_text (d ∷ cs)

-- No byte of the text is `x`.
abbrev pub Lacks : ℕ → List ℕ → Type 0
Lacks x = All (λ c. c ≢ x)

abbrev IsHostChar : ℕ → Type 0
IsHostChar c = (46 ≤ c) × (c ≤ 57)

All-append : (P : ℕ → Type 0) (xs ys : List ℕ) → All P xs → All P ys → All P (xs ++ ys)
All-append P [] ys h g = g
All-append P (x ∷ xs) ys (p, h) g = (p, All-append P xs ys h g)

decimal-digits : (n : ℕ) → n < 256 → All IsHostChar (decimal n)
decimal-digits n h = elim (Bool-cases (ltb n 10)) [
  | inl e ↦ rw e ((omega arith, ground (arith, e)), tt)
  | inr e ↦ elim (Bool-cases (ltb n 100)) [
    | inl f ↦ rw (e, f) ((omega arith, ground (arith, f)), ((omega arith, omega arith), tt))
    | inr f ↦
        rw (e, f)
          (
            (omega arith, ground (arith, h)),
            ((omega arith, omega arith), ((omega arith, omega arith), tt)),
          )
  ]
]

inet_ntoa-digits : (a : ℕ) → All IsHostChar (inet_ntoa a)
unfolding inet_ntoa
inet_ntoa-digits a =
    All-append IsHostChar (decimal (a % 256)) _ (decimal-digits (a % 256) (omega arith)) (
      dot,
      All-append IsHostChar (decimal (a / 256 % 256)) _
          (decimal-digits (a / 256 % 256) (omega arith))
          (
            dot,
            All-append IsHostChar (decimal (a / 65536 % 256)) _
                (decimal-digits (a / 65536 % 256) (omega arith))
                (dot, decimal-digits (a / 16777216 % 256) (omega arith)),
          ),
    )
  where
    dot : IsHostChar 46
    dot = (omega arith, omega arith)

All-imp : {P Q : ℕ → Type 0} (xs : List ℕ) → ((x : ℕ) → P x → Q x) → All P xs → All Q xs
All-imp [] f h = tt
All-imp (x ∷ xs) f (p, h) = (f x p, All-imp xs f h)

pub inet_ntoa-Lacks : (a x : ℕ) → (x < 46) ⊎ (57 < x) → Lacks x (inet_ntoa a)
inet_ntoa-Lacks a x h = All-imp (inet_ntoa a) (λ c p. ground (arith, h, p)) (inet_ntoa-digits a)

ne-test : (c x : ℕ) → c ≢ x → (c == x) ≡ false
ne-test c x h = ground (arith, h)

pub cut_port-append : (x r : List ℕ) → Lacks 58 x → cut_port (x ++ 58 ∷ r) ≡ some x
unfolding cut_port
cut_port-append [] r h = refl
cut_port-append (c ∷ x) r (n, h) = rw (ne-test c 58 n, cut_port-append x r h) refl

snoc-append : (xs ys : List ℕ) (c : ℕ) → (xs ++ c ∷ []) ++ ys ≡ xs ++ c ∷ ys
snoc-append [] ys c = refl
snoc-append (x ∷ xs) ys c = ap (λ t. x ∷ t) (snoc-append xs ys c)

-- A token that has no comma is read whole, up to a comma, and up to the end.
tokens_from-comma :
    (cur x rest : List ℕ)
    → Lacks 44 x
    → tokens_from cur (x ++ 44 ∷ rest) ≡ emit (cur ++ x) (tokens_from [] rest)
unfolding tokens_from
tokens_from-comma cur [] rest h = ap (λ t. emit t (tokens_from [] rest)) (sym (append-nil cur))
tokens_from-comma cur (c ∷ x) rest (n, h) = rw (ne-test c 44 n) (
    tokens_from-comma (cur ++ c ∷ []) x rest h
    ∙ ap (λ t. emit t (tokens_from [] rest)) (snoc-append cur x c))

tokens_from-end : (cur x : List ℕ) → Lacks 44 x → tokens_from cur x ≡ emit (cur ++ x) []
unfolding tokens_from
tokens_from-end cur [] h = ap (λ t. emit t []) (sym (append-nil cur))
tokens_from-end cur (c ∷ x) (n, h) =
    rw (ne-test c 44 n)
      (tokens_from-end (cur ++ c ∷ []) x h ∙ ap (λ t. emit t []) (snoc-append cur x c))

emit-append :
    (xs ys : List ℕ) (y : ℕ) (ts : List (List ℕ)) → emit (xs ++ y ∷ ys) ts ≡ (xs ++ y ∷ ys) ∷ ts
emit-append [] ys y ts = refl
emit-append (x ∷ xs) ys y ts = refl

client_text-Lacks : (c : Client) → Lacks 44 c.port_text → Lacks 44 (client_text c)
client_text-Lacks c h =
    All-append (λ x. x ≢ 44) (inet_ntoa c.host) _ (inet_ntoa-Lacks c.host 44 (inl (omega arith)))
      (λ e. absurd (omega (arith, e)), h)

pub tokens_from-clients_text :
    (cs : List Client)
    → All (λ c. Lacks 44 c.port_text) cs
    → tokens_from [] (clients_text cs) ≡ map client_text cs
unfolding clients_text tokens_from
tokens_from-clients_text [] h = refl
tokens_from-clients_text (c ∷ []) (p, h) =
    tokens_from-end [] (client_text c) (client_text-Lacks c p)
    ∙ emit-append (inet_ntoa c.host) c.port_text 58 []
tokens_from-clients_text (c ∷ d ∷ cs) (p, h) =
    tokens_from-comma [] (client_text c) (clients_text (d ∷ cs)) (client_text-Lacks c p)
    ∙ emit-append (inet_ntoa c.host) c.port_text 58 _
    ∙ ap (λ t. client_text c ∷ t) (tokens_from-clients_text (d ∷ cs) h)
