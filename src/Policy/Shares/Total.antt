-- ===== src/Policy/Shares/Total.antt =====
-- What the recipients are paid.
use flare_studio.Base.Int.{ℤ, pos, ◌+ℤ◌, ◌-ℤ◌, ◌≤ℤ◌, mul_div, sum, int_laws, +ℤ_pos}
use flare_studio.Base.{
  ℕ, suc, ◌+◌, ◌-◌, ◌*◌, ◌/◌, ◌≤◌, ◌<◌, false, List, [], ◌∷◌, map, length, ◌≡◌, ◌≢◌, refl, ◌∙◌, ap,
  arith, ◌==◌,
}
use flare_studio.Policy.Schema.{Recipient}
use flare_studio.Policy.Schema.Refine.{sum_shares}
use flare_studio.Policy.Commitment.{Distribution}
use flare_studio.Policy.Compile.{PrivateConfig}
use flare_studio.Policy.Shares.{share_amount, resolve_from, resolve_distributions}

abbrev pub total : List Distribution → ℤ
total ds = sum (map (λ d. d.amount) ds)

-- One round of the loop, at the last recipient and before it.
resolve_last :
    (n i : ℕ) (balance allocated : ℤ) (r : Recipient)
    → n ≡ i + 1
    → resolve_from n i balance allocated (r ∷ [])
      ≡ record { recipient = r.address; amount = balance -ℤ allocated } ∷ []
unfolding resolve_from share_amount
resolve_last n i balance allocated r h = ground arith

resolve_step :
    (n i : ℕ) (balance allocated : ℤ) (r : Recipient) (rs : List Recipient)
    → i + 1 < n
    → resolve_from n i balance allocated (r ∷ rs)
      ≡ record { recipient = r.address; amount = mul_div balance r.share_bps 10_000 }
        ∷ resolve_from n (i + 1) balance (allocated +ℤ mul_div balance r.share_bps 10_000) rs
unfolding resolve_from share_amount
resolve_step n i balance allocated r rs h =
    let before : (i == n - 1) ≡ false = ground arith in rw before

sum_rest : (a b c s : ℤ) → s ≡ a -ℤ (b +ℤ c) → c +ℤ s ≡ a -ℤ b
sum_rest a b c s e = rw e (omega int_laws)

-- From index `i` on, the recipients get what was not yet allocated.
total-resolve_from :
    (n i : ℕ) (balance allocated : ℤ) (r : Recipient) (rs : List Recipient)
    → n ≡ i + suc (length rs)
    → total (resolve_from n i balance allocated (r ∷ rs)) ≡ balance -ℤ allocated
unfolding sum
total-resolve_from n i balance allocated r [] h =
    rw (resolve_last n i balance allocated r (omega arith)) (omega int_laws)
total-resolve_from n i balance allocated r (r' ∷ rs) h =
    let paid = mul_div balance r.share_bps 10_000 in
    rw (resolve_step n i balance allocated r (r' ∷ rs) (omega arith)) (
      sum_rest balance allocated paid _
        (total-resolve_from n (i + 1) balance (allocated +ℤ paid) r' rs (omega arith)))

nothing_allocated : (a : ℤ) → a -ℤ pos 0 ≡ a
nothing_allocated a = omega int_laws

total-resolve_all :
    (balance : ℤ) (rs : List Recipient)
    → rs ≢ []
    → total (resolve_from (length rs) 0 balance (pos 0) rs) ≡ balance
total-resolve_all balance [] h = absurd (h refl)
total-resolve_all balance (r ∷ rs) h =
    total-resolve_from (suc (length rs)) 0 balance (pos 0) r rs (omega arith)
    ∙ nothing_allocated balance

-- Whatever the balance, a policy with a recipient pays out exactly the balance.
pub total-resolve_distributions :
    (config : PrivateConfig) (balance : ℤ)
    → config.recipients ≢ []
    → total (resolve_distributions config balance) ≡ balance
unfolding resolve_distributions
total-resolve_distributions config balance h = total-resolve_all balance config.recipients h

-- `k` recipients come before. Each recipient gets the floor of its share of the balance `b`; the last
-- one gets at least that and at most `k` units more.
abbrev pub IsPaid : ℕ → ℕ → List Distribution → List Recipient → Type 0
IsPaid b k [] [] = Unit {0}
IsPaid b k (d ∷ []) (r ∷ []) =
    (d.recipient ≡ r.address)
    × (pos (b * r.share_bps / 10_000) ≤ℤ d.amount)
    × (d.amount ≤ℤ pos (b * r.share_bps / 10_000 + k))
IsPaid b k (d ∷ d' ∷ ds) (r ∷ r' ∷ rs) =
    (d.recipient ≡ r.address)
    × (d.amount ≡ pos (b * r.share_bps / 10_000))
    × IsPaid b (k + 1) (d' ∷ ds) (r' ∷ rs)
IsPaid b k _ _ = ⊥

-- What the recipients before `k` have left over: less than one unit each.
record IsAllocated (b a s k : ℕ) : Type 0 where
  at_most : a * 10_000 ≤ b * s
  at_least : b * s ≤ a * 10_000 + k * 10_000

IsAllocated-step :
    (b a s k bps : ℕ) → IsAllocated b a s k → IsAllocated b (a + b * bps / 10_000) (s + bps) (k + 1)
IsAllocated-step b a s k bps h = ground arith

last_amount :
    (b a s k bps : ℕ)
    → IsAllocated b a s k
    → s + bps ≡ 10_000
    → (b * bps / 10_000 + a ≤ b) × (b ≤ a + b * bps / 10_000 + k)
last_amount b a s k bps h e = ground (arith, ap (λ (t : ℕ). b * t) e)

IsPaid-cons :
    (b k : ℕ) (d : Distribution) (ds : List Distribution) (r r' : Recipient) (rs : List Recipient)
    → d.recipient ≡ r.address
    → d.amount ≡ pos (b * r.share_bps / 10_000)
    → IsPaid b (k + 1) ds (r' ∷ rs)
    → IsPaid b k (d ∷ ds) (r ∷ r' ∷ rs)
IsPaid-cons b k d [] r r' rs p q h = absurd h
IsPaid-cons b k d (d' ∷ ds) r r' rs p q h = (p, q, h)

paid_so_far : (a b bps : ℕ) → pos a +ℤ mul_div (pos b) bps 10_000 ≡ pos (a + b * bps / 10_000)
unfolding mul_div
paid_so_far a b bps = +ℤ_pos a (b * bps / 10_000)

left_over :
    (a b f k : ℕ)
    → f + a ≤ b
    → b ≤ a + f + k
    → (pos f ≤ℤ pos b -ℤ pos a) × (pos b -ℤ pos a ≤ℤ pos (f + k))
left_over a b f k h h' = omega int_laws

resolve_from-IsPaid :
    (n i b a s : ℕ) (r : Recipient) (rs : List Recipient)
    → n ≡ i + suc (length rs)
    → IsAllocated b a s i
    → s + sum_shares (r ∷ rs) ≡ 10_000
    → IsPaid b i (resolve_from n i (pos b) (pos a) (r ∷ rs)) (r ∷ rs)
resolve_from-IsPaid n i b a s r [] h w e =
    let (low, high) = last_amount b a s i r.share_bps w (omega arith) in
    let (low', high') = left_over a b (b * r.share_bps / 10_000) i low high in
    rw (resolve_last n i (pos b) (pos a) r (omega arith)) (refl, low', high')
resolve_from-IsPaid n i b a s r (r' ∷ rs) h w e =
    rw (resolve_step n i (pos b) (pos a) r (r' ∷ rs) (omega arith), paid_so_far a b r.share_bps)
      (IsPaid-cons b i _ _ r r' rs refl (unfold mul_div in refl) (
        resolve_from-IsPaid n (i + 1) b (a + b * r.share_bps / 10_000) (s + r.share_bps) r' rs
          (omega arith) (IsAllocated-step b a s i r.share_bps w) (omega arith)))

resolve_all-IsPaid :
    (b : ℕ) (rs : List Recipient)
    → sum_shares rs ≡ 10_000
    → IsPaid b 0 (resolve_from (length rs) 0 (pos b) (pos 0) rs) rs
resolve_all-IsPaid b [] h = absurd (omega arith)
resolve_all-IsPaid b (r ∷ rs) h =
    resolve_from-IsPaid (suc (length rs)) 0 b 0 0 r rs (omega arith) (omega arith) (omega arith)

-- Where the shares total 10000 basis points, the recipients of a nonnegative balance of `b` units are
-- paid in their order, each the floor of its share of the balance; only the last can get more, and at
-- most one unit more for each recipient before it. So no amount is negative.
pub resolve_distributions-IsPaid :
    (config : PrivateConfig) (b : ℕ)
    → sum_shares config.recipients ≡ 10_000
    → IsPaid b 0 (resolve_distributions config (pos b)) config.recipients
unfolding resolve_distributions
resolve_distributions-IsPaid config b h = resolve_all-IsPaid b config.recipients h
