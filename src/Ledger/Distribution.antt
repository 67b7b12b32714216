-- ===== src/Ledger/Distribution.antt =====
-- What `recordEscrowRelease` (kahade-backend/src/core/ledger/ledger.service.ts) does to the balances
-- of the accounts.
use rekberkan.Base.{ℕ, true, ◌≡◌, ◌≢◌, refl, sym, ◌∙◌, none, some, List, [], ◌∷◌, eq→==, ne→==}
use rekberkan.Base.Int.{ℤ, ◌+ℤ◌, ◌-ℤ◌, neg, 0ℤ, int_laws}
use rekberkan.Base.Table.{find_first}
use rekberkan.Store.{Store, LedgerJournal, ok}
use rekberkan.Ledger.Journal.{LedgerEntryInput, find_by_key, new_journal, clashes, refers}
use rekberkan.Ledger.Records.{input, escrow_release_options, record_escrow_release}
use rekberkan.Ledger.Accounts.{get_account_balance}
use rekberkan.Ledger.Postings.{posted, create_journal-Posts, record-options_balanced}

abbrev three : ℕ → ℕ → ℕ → ℤ → ℤ → ℤ → List LedgerEntryInput
three a b c m n k = input a m ∷ input b n ∷ input c k ∷ []

posted_first : (a b c : ℕ) (m n k : ℤ) → a ≢ b → a ≢ c → posted a (three a b c m n k) ≡ m
posted_first a b c m n k ab ac =
    rw (eq→== a a refl, ne→== b a (λ e. ab (sym e)), ne→== c a (λ e. ac (sym e))) (omega int_laws)

posted_second : (a b c : ℕ) (m n k : ℤ) → a ≢ b → b ≢ c → posted b (three a b c m n k) ≡ n
posted_second a b c m n k ab bc =
    rw (eq→== b b refl, ne→== a b ab, ne→== c b (λ e. bc (sym e))) (omega int_laws)

posted_third : (a b c : ℕ) (m n k : ℤ) → a ≢ c → b ≢ c → posted c (three a b c m n k) ≡ k
posted_third a b c m n k ac bc = rw (eq→== c c refl, ne→== a c ac, ne→== b c bc) (omega int_laws)

posted_other : (d a b c : ℕ) (m n k : ℤ) → d ≢ a → d ≢ b → d ≢ c → posted d (three a b c m n k) ≡ 0ℤ
posted_other d a b c m n k da db dc =
    rw (ne→== a d (λ e. da (sym e)), ne→== b d (λ e. db (sym e)), ne→== c d (λ e. dc (sym e)))
      (omega int_laws)

-- The balances of the escrow, the seller's, the fee and another account after a release
abbrev pub Distributes : ℕ → ℕ → ℕ → ℕ → ℤ → ℤ → Store → Store → Type 0
Distributes a b c d amount fee s t =
    (get_account_balance a t ≡ get_account_balance a s -ℤ amount)
    × (get_account_balance b t ≡ get_account_balance b s +ℤ (amount -ℤ fee))
    × (get_account_balance c t ≡ get_account_balance c s +ℤ fee)
    × (get_account_balance d t ≡ get_account_balance d s)

-- `recordEscrowRelease` on three different accounts, under a new key, with the rows it refers to: the
-- escrow account gives the amount, the seller's gets the amount less the fee, the fee account gets the fee, and no other
-- account's balance changes.
pub record_escrow_release-balances :
    (now a b c d : ℕ) (amount fee : ℤ) (escrow order key : ℕ) (s : Store)
    → a ≢ b
    → a ≢ c
    → b ≢ c
    → d ≢ a
    → d ≢ b
    → d ≢ c
    → find_by_key (some key) s ≡ none
    → find_first (clashes (escrow_release_options a b c amount fee escrow order key)) s.journals
      ≡ none
    → refers (escrow_release_options a b c amount fee escrow order key) s ≡ true
    → (t : Store) × (j : LedgerJournal) × (record_escrow_release now a b c amount fee escrow order
          key s
        ≡ (ok j, t))
      × Distributes a b c d amount fee s t
unfolding record_escrow_release escrow_release_options
record_escrow_release-balances now a b c d amount fee escrow order key s ab ac bc da db dc e f r =
    let o = escrow_release_options a b c amount fee escrow order key in
    let (t, w, p) =
      create_journal-Posts now o s (record-options_balanced a b c amount fee escrow order key).3 e f
        r in
    (
      t,
      new_journal now s.next_id o,
      w,
      (
        p a ∙ (rw (posted_first a b c (neg amount) (amount -ℤ fee) fee ab ac) (omega int_laws)),
        p b ∙ (rw (posted_second a b c (neg amount) (amount -ℤ fee) fee ab bc) refl),
        p c ∙ (rw (posted_third a b c (neg amount) (amount -ℤ fee) fee ac bc) refl),
        p d
            ∙ (rw (posted_other d a b c (neg amount) (amount -ℤ fee) fee da db dc)
                (omega int_laws)),
      ),
    )
