-- ===== src/Web/Vault/Entries.antt =====
-- What is found in the vault after an entry was saved.
use flare_studio.Base.Text.{Text, text_eq_iff, text_eq_refl, to_lower_case}
use flare_studio.Base.{
  ℕ, ◌+◌, ◌≤◌, Bool, false, not, some, List, [], ◌∷◌, ◌++◌, ◌≡◌, ◌≢◌, inl, inr, refl, ◌∙◌, ap, All,
  arith, find?, keep, Bool-cases, if◌then◌else◌, leb, leb→le, ◌==◌,
}
use flare_studio.Web.Vault.{
  VaultEntry, is_for, get_entry, save_entry, insert_entry, sort_entries, all_entries,
}

-- Two addresses that differ in letter case only are one key.
abbrev pub SamePolicy : Text → Text → Type 0
SamePolicy p q = to_lower_case p ≡ to_lower_case q

find-saved :
    (entry : VaultEntry) (es : List VaultEntry)
    → find?
        (is_for (to_lower_case entry.policy))
        (keep (λ e. not (is_for (to_lower_case entry.policy) e)) es ++ entry ∷ [])
      ≡ some entry
unfolding is_for
find-saved entry [] = rw (text_eq_refl (to_lower_case entry.policy))
find-saved entry (e ∷ es) = ground (arith, find-saved entry es)

-- What was saved is found under its address, in any letter case.
pub get_entry-save_entry :
    (entry : VaultEntry) (policy : Text) (es : List VaultEntry)
    → SamePolicy policy entry.policy
    → get_entry policy (save_entry entry es) ≡ some entry
unfolding get_entry save_entry
get_entry-save_entry entry policy es h =
    ap (λ t. find? (is_for t) (save_entry entry es)) h ∙ find-saved entry es

find-other :
    (entry : VaultEntry) (wanted : Text) (es : List VaultEntry)
    → wanted ≢ to_lower_case entry.policy
    → find?
        (is_for wanted)
        (keep (λ e. not (is_for (to_lower_case entry.policy) e)) es ++ entry ∷ [])
      ≡ find? (is_for wanted) es
unfolding is_for
find-other entry wanted [] h = ground (arith, text_eq_iff (to_lower_case entry.policy) wanted)
find-other entry wanted (e ∷ es) h = ground (
  arith,
  find-other entry wanted es h,
  text_eq_iff (to_lower_case e.policy) wanted,
  text_eq_iff (to_lower_case e.policy) (to_lower_case entry.policy),
)

-- Saving an entry changes nothing for any other address.
pub get_entry-save_other :
    (entry : VaultEntry) (policy : Text) (es : List VaultEntry)
    → ¬ SamePolicy policy entry.policy
    → get_entry policy (save_entry entry es) ≡ get_entry policy es
unfolding get_entry save_entry
get_entry-save_other entry policy es h = find-other entry (to_lower_case policy) es h

-- The list is sorted by the time of deployment, the latest first.
abbrev pub IsLatestFirst : List VaultEntry → Type 0
IsLatestFirst [] = Unit {0}
IsLatestFirst (e ∷ es) = All (λ x. x.deployed_at ≤ e.deployed_at) es × IsLatestFirst es

All-trans :
    (a b : ℕ) (es : List VaultEntry)
    → a ≤ b
    → All (λ x. x.deployed_at ≤ a) es
    → All (λ x. x.deployed_at ≤ b) es
All-trans a b [] h hs = tt
All-trans a b (e ∷ es) h hs = (omega (arith, hs.0), All-trans a b es h hs.1)

insert_entry-All :
    (b : ℕ) (e : VaultEntry) (es : List VaultEntry)
    → e.deployed_at ≤ b
    → All (λ x. x.deployed_at ≤ b) es
    → All (λ x. x.deployed_at ≤ b) (insert_entry e es)
unfolding insert_entry
insert_entry-All b e [] h hs = (h, tt)
insert_entry-All b e (x ∷ es) h hs = ground (arith, insert_entry-All b e es h hs.1)

insert_entry-IsLatestFirst :
    (e : VaultEntry) (es : List VaultEntry) → IsLatestFirst es → IsLatestFirst (insert_entry e es)
unfolding insert_entry
insert_entry-IsLatestFirst e [] h = (tt, tt)
insert_entry-IsLatestFirst e (x ∷ es) h = elim (Bool-cases (leb x.deployed_at e.deployed_at)) [
  | inl before ↦
      let le = leb→le _ _ before in
      rw before ((le, All-trans x.deployed_at e.deployed_at es le h.0), h)
  | inr after ↦
      rw after (
        insert_entry-All x.deployed_at e es (ground arith) h.0,
        insert_entry-IsLatestFirst e es h.1,
      )
]

sort_entries-IsLatestFirst : (es : List VaultEntry) → IsLatestFirst (sort_entries es)
unfolding sort_entries
sort_entries-IsLatestFirst [] = tt
sort_entries-IsLatestFirst (e ∷ es) =
    insert_entry-IsLatestFirst e (sort_entries es) (sort_entries-IsLatestFirst es)

-- How often the entries with a property occur.
abbrev pub count : (VaultEntry → Bool) → List VaultEntry → ℕ
count p [] = 0
count p (e ∷ es) = (if p e then 1 else 0) + count p es

count-insert_entry :
    (p : VaultEntry → Bool) (e : VaultEntry) (es : List VaultEntry)
    → count p (insert_entry e es) ≡ (if p e then 1 else 0) + count p es
unfolding insert_entry
count-insert_entry p e [] = refl
count-insert_entry p e (x ∷ es) = ground (arith, count-insert_entry p e es)

count-sort_entries :
    (p : VaultEntry → Bool) (es : List VaultEntry) → count p (sort_entries es) ≡ count p es
unfolding sort_entries
count-sort_entries p [] = refl
count-sort_entries p (e ∷ es) =
    count-insert_entry p e (sort_entries es)
    ∙ ap (λ (n : ℕ). (if p e then 1 else 0) + n) (count-sort_entries p es)

count-keep :
    (p q : VaultEntry → Bool) (es : List VaultEntry)
    → count p (keep q es) ≡ count (λ e. if q e then p e else false) es
count-keep p q [] = refl
count-keep p q (e ∷ es) = ground (arith, count-keep p q es)

-- The list of a chain's entries is sorted, the latest first, and holds just the entries of that
-- chain, each as often as the vault does.
pub all_entries-IsLatestFirst :
    (chain_id : ℕ) (p : VaultEntry → Bool) (es : List VaultEntry)
    → IsLatestFirst (all_entries chain_id es)
      × (count p (all_entries chain_id es)
          ≡ count (λ e. if e.chain_id == chain_id then p e else false) es)
unfolding all_entries
all_entries-IsLatestFirst chain_id p es = (
  sort_entries-IsLatestFirst (keep (λ e. e.chain_id == chain_id) es),
  count-sort_entries p (keep (λ e. e.chain_id == chain_id) es)
      ∙ count-keep p (λ e. e.chain_id == chain_id) es,
)
