-- ===== src/Web/Vault/Storage.antt =====
-- apps/web/lib/vault.ts, `read` and `write`: the vault in the browser's storage, as the entries' JSON
-- under one key. The storage, and JSON with it, is a parameter.
use flare_studio.Base.Text.{Text, codes, text_eq, text_eq_iff, to_lower_case}
use flare_studio.Base.{
  Bool, true, false, Option, none, some, List, [], ◌++◌, ◌≡◌, ap, ◌∙◌, Result, ok, err, Bool-cases,
  inl, inr, take, if◌then◌else◌,
}
use flare_studio.Web.Thrown.{Thrown}
use flare_studio.Web.Vault.{VaultEntry, get_entry, save_entry}
use flare_studio.Web.Vault.Entries.{get_entry-save_entry, get_entry-save_other}

-- On the server there is no window. `get_item` may throw, and so may `set_item`, which gives the
-- storage as it is then. `parse` gives the entries of an array, or nothing for other JSON. The JSON
-- texts, of type `Json`, are only passed on; one that is empty counts as none.
pub record Browser (S Json : Type 0) : Type 0 where
  pub has_window : Bool
  pub get_item : S → Result Thrown (Option Json)
  pub set_item : Json → S → Result Thrown S
  pub is_empty : Json → Bool
  pub parse : Json → Result Thrown (Option (List VaultEntry))
  pub stringify : List VaultEntry → Json
  -- What was stored is read back, and JSON gives entries back.
  pub reads_back : (text : Json) (s s' : S) → set_item text s ≡ ok s' → get_item s' ≡ ok (some text)
  pub parses_back : (es : List VaultEntry) → parse (stringify es) ≡ ok (some es)
  pub not_empty : (es : List VaultEntry) → is_empty (stringify es) ≡ false

unfoldable pub entries_of : Result Thrown (Option (List VaultEntry)) → List VaultEntry
entries_of (ok (some es)) = es
entries_of (ok none) = []
entries_of (err e) = []

unfoldable pub parsed_item :
    {Json : Type 0}
    → (is_empty : Json → Bool) → (parse : Json → Result Thrown (Option (List VaultEntry)))
    → Result Thrown (Option Json)
    → List VaultEntry
unfolding entries_of
parsed_item is_empty parse (ok (some raw)) = if is_empty raw then [] else entries_of (parse raw)
parsed_item is_empty parse (ok none) = []
parsed_item is_empty parse (err e) = []

module _ {S Json : Type 0} (browser : Browser S Json) where
  -- `read`: a corrupt vault is an empty one.
  unfoldable pub read_vault : S → List VaultEntry
  unfolding parsed_item
  read_vault s =
      if browser.has_window
      then parsed_item browser.is_empty browser.parse (browser.get_item s)
      else []

  unfoldable pub write_vault : List VaultEntry → S → Result Thrown S
  write_vault entries s = browser.set_item (browser.stringify entries) s

  -- `saveEntry` and `getEntry` on the storage.
  unfoldable pub save_stored : VaultEntry → S → Result Thrown S
  unfolding read_vault write_vault
  save_stored entry s = write_vault (save_entry entry (read_vault s)) s

  unfoldable pub get_stored : Text → S → Option VaultEntry
  unfolding read_vault
  get_stored policy s = get_entry policy (read_vault s)

  parsed-stringify :
      (es : List VaultEntry)
      → parsed_item browser.is_empty browser.parse (ok (some (browser.stringify es))) ≡ es
  unfolding parsed_item
  parsed-stringify es = rw (browser.not_empty es) (ap entries_of (browser.parses_back es))

  read_vault-write_vault :
      (es : List VaultEntry) (s s' : S)
      → browser.has_window ≡ true
      → write_vault es s ≡ ok s'
      → read_vault s' ≡ es
  unfolding read_vault write_vault
  read_vault-write_vault es s s' window written =
      rw (window, browser.reads_back (browser.stringify es) s s' written) (parsed-stringify es)

  -- The abstract vault: at most one entry for each address, letter case aside.
  abbrev pub view : S → Text → Option VaultEntry
  view s policy = get_stored policy s

  abbrev pub updated : VaultEntry → (Text → Option VaultEntry) → Text → Option VaultEntry
  updated entry vault policy =
      if text_eq (to_lower_case policy) (to_lower_case entry.policy)
      then some entry
      else vault policy

  -- In the browser, the stored vault is a map from addresses, letter case aside, to entries: saving an
  -- entry, when the storage takes it, is the update of that map at the entry's address and nowhere
  -- else, also over a storage that was empty or corrupt.
  pub save_stored-updated :
      (entry : VaultEntry) (policy : Text) (s s' : S)
      → browser.has_window ≡ true
      → save_stored entry s ≡ ok s'
      → view s' policy ≡ updated entry (view s) policy
  unfolding save_stored get_stored
  save_stored-updated entry policy s s' window saved =
      let now = read_vault-write_vault (save_entry entry (read_vault s)) s s' window saved in
      ap (get_entry policy) now
      ∙ elim (Bool-cases (text_eq (to_lower_case policy) (to_lower_case entry.policy))) [
        | inl same ↦
            rw same (get_entry-save_entry entry policy (read_vault s) ((text_eq_iff _ _).0 same))
        | inr other ↦ rw other (
            get_entry-save_other entry policy (read_vault s)
              (λ same. let known = (text_eq_iff _ _).1 same in cc (known, other)))
      ]

-- The name of the file that `exportEntry` downloads; the file itself is the entry's JSON.
unfoldable pub export_name : VaultEntry → Text
export_name entry = codes "flare-studio-policy-" ++ (take 10 entry.policy ++ codes ".json")
