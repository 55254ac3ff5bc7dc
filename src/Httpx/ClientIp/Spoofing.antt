-- ===== src/Httpx/ClientIp/Spoofing.antt =====
-- internal/httpx/ratelimit.go: X-Forwarded-For as a client writes it, and the key of its requests.
use Prim.Native.Char.{Char, code}
use Prim.Native.String
use text.Mathlib.TextLemmas.{nil-append, cons-append}
use mathlib.Core.List.{map-append, append_assoc, append-nil}
use mathlib.Core.List.Memᴰ.{head, tail}
use apisix_developer_portal.Common.{
  ℕ, String, true, Option, none, some, List, [], ◌∷◌, ◌++◌, Memᴰ, ◌≡◌, inl, inr, refl, sym, ap,
  subst, ◌∙◌, ◌==◌, map, Bool-cases, Option-cases,
}
use apisix_developer_portal.Common.Texts.{split, grow, trim}
use apisix_developer_portal.Admin.Plans.Forms.{is_space}
use apisix_developer_portal.Httpx.RateLimit.{RateLimiter, allow}
use apisix_developer_portal.Httpx.ClientIp.{
  Addresses, entries, forwarded_parts, is_client, rightmost, client_ip, middleware,
}

split_shape : (n : ℕ) (s : String) → (p : String) × (ps : List String) × (split n s ≡ p ∷ ps)
unfolding split
split_shape n String.[] = ("", [], refl)
split_shape n (String.◌∷◌ c s) = elim (Bool-cases (code c == n)) [
  | inl t ↦ rw t ("", split n s, refl)
  | inr f ↦ let (p, ps, e) = split_shape n s in rw (f, e) (String.◌∷◌ c p, ps, refl)
]

grow_first :
    (c : Char) (xs ys : List String) (p : String) (ps : List String)
    → xs ≡ p ∷ ps
    → grow c (xs ++ ys) ≡ grow c xs ++ ys
grow_first c xs ys p ps e = rw e refl

-- A separator between two texts separates their pieces.
split-append :
    (n : ℕ) (s : String) (c : Char) (t : String)
    → (code c == n) ≡ true
    → split n (String.◌++◌ s (String.◌∷◌ c t)) ≡ split n s ++ split n t
unfolding split
split-append n String.[] c t sep = ap (split n) (nil-append (String.◌∷◌ c t)) ∙ rw sep refl
split-append n (String.◌∷◌ a s) c t sep =
    let rest = split-append n s c t sep in
    let (p, ps, shape) = split_shape n s in
    ap (split n) (cons-append a s (String.◌∷◌ c t)) ∙ elim (Bool-cases (code a == n)) [
      | inl u ↦ rw (u, rest) refl
      | inr f ↦ rw (f, rest) (grow_first a (split n s) (split n t) p ps shape)
    ]

entries-append :
    (s t : String) → entries (String.◌++◌ s (String.◌∷◌ "," t)) ≡ entries s ++ entries t
unfolding entries
entries-append s t =
    ap (map (trim is_space)) (split-append 44 s "," t refl)
    ∙ map-append (trim is_space) (split 44 s) (split 44 t)

forwarded-append :
    (values values' : List String)
    → forwarded_parts (values ++ values') ≡ forwarded_parts values ++ forwarded_parts values'
unfolding forwarded_parts
forwarded-append [] values' = refl
forwarded-append (v ∷ values) values' =
    ap (λ ps. entries v ++ ps) (forwarded-append values values')
    ∙ sym (append_assoc (entries v) (forwarded_parts values) (forwarded_parts values'))

-- Some entry of the value is an address that no trusted block has.
unfoldable pub HasClient : {Ip Block : Type 0} → Addresses Ip Block → List Block → String → Type 0
HasClient net trusted value =
    (part : String) × Memᴰ part (entries value) × (is_client net trusted part ≡ true)

module _ {Ip Block : Type 0} (net : Addresses Ip Block) (trusted : List Block) where
  from_the_right :
      (xs ys : List String) (ip : String)
      → rightmost net trusted ys ≡ some ip
      → rightmost net trusted (xs ++ ys) ≡ some ip
  unfolding rightmost
  from_the_right [] ys ip h = h
  from_the_right (x ∷ xs) ys ip h = rw (from_the_right xs ys ip h) refl

  found :
      (part : String) (parts : List String)
      → Memᴰ part parts
      → is_client net trusted part ≡ true
      → (ip : String) × (rightmost net trusted parts ≡ some ip)
  unfolding rightmost
  found part [] there client = elim there [ ]
  found part (x ∷ parts) there client = elim (Option-cases (rightmost net trusted parts)) [
    | inr (ip, e) ↦ (ip, rw e refl)
    | inl e ↦ elim there [
      | head same ↦
          let own : is_client net trusted x ≡ true =
            subst (λ p. is_client net trusted p ≡ true) same client in
          (x, rw (e, own) refl)
      | tail m ↦
          let (ip, e') = found part parts m client in
          let k : ◌≡◌ {A = Option String} none (some ip) = sym e ∙ e' in absurd (cc)
    ]
  ]

  -- A key by the entries of the last value, behind whatever stands before them.
  settled :
      (values : List String) (forged chain : String) (ip : String)
      → rightmost net trusted (entries chain) ≡ some ip
      → rightmost net trusted
          (forwarded_parts (values ++ String.◌++◌ forged (String.◌∷◌ "," chain) ∷ []))
        ≡ some ip
  unfolding forwarded_parts
  settled values forged chain ip h =
      ap (rightmost net trusted)
        (forwarded-append values (String.◌++◌ forged (String.◌∷◌ "," chain) ∷ []))
      ∙ from_the_right (forwarded_parts values) _ ip (
          ap (λ ps. rightmost net trusted (ps ++ [])) (entries-append forged chain)
          ∙ ap (rightmost net trusted) (append_assoc (entries forged) (entries chain) [])
          ∙ from_the_right (entries forged) _ ip
              (ap (rightmost net trusted) (append-nil (entries chain)) ∙ h))

  alike :
      (remote_addr : String) (forwarded forwarded' : List String)
      → rightmost net trusted (forwarded_parts forwarded)
        ≡ rightmost net trusted (forwarded_parts forwarded')
      → client_ip net trusted remote_addr forwarded ≡ client_ip net trusted remote_addr forwarded'
  unfolding client_ip
  alike remote_addr forwarded forwarded' same = rw same refl

  -- If the end of the last value of X-Forwarded-For has an entry that is neither empty nor a trusted
  -- proxy, the limiter treats a request as if the header were this end alone, whatever values and
  -- entries a client put before it, and whoever the peer is.
  pub forging_is_futile :
      (rl : RateLimiter) (now : ℕ) (remote_addr : String) (values : List String)
      (forged chain : String)
      → HasClient net trusted chain
      → middleware net trusted rl now remote_addr
          (values ++ String.◌++◌ forged (String.◌∷◌ "," chain) ∷ [])
        ≡ middleware net trusted rl now remote_addr (chain ∷ [])
  unfolding middleware HasClient forwarded_parts
  forging_is_futile rl now remote_addr values forged chain (part, there, client) =
      let (ip, e) = found part (entries chain) there client in
      ap (λ key. allow now key rl)
        (alike remote_addr (values ++ String.◌++◌ forged (String.◌∷◌ "," chain) ∷ []) (chain ∷ []) (
          settled values forged chain ip e
          ∙ sym (ap (rightmost net trusted) (append-nil (entries chain)) ∙ e)))
