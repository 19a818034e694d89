-- ===== src/Store/Jti/Replay.antt =====
-- A used identifier is refused for as long as it is kept.
use vcknots.Common.{
  List, Option, String, [], arith, eq_iff, eq_refl, false, ltb, none, some, true, ℕ, ◌+◌, ◌↔◌, ◌∷◌,
  ◌≡◌, ◌≤◌,
}
use vcknots.Common.Map
use vcknots.Common.Map.{IsMap}
use vcknots.Store.Jti.{UsedJtis, cleanup_expired, save_key_if_absent}

abbrev pub live : ℕ → Option ℕ → Option ℕ
live now = Map.unless (λ expires_at. ltb expires_at now)

get-cleanup_expired :
    (now : ℕ) (k : String) (m : UsedJtis)
    → IsMap m
    → Map.get k (cleanup_expired now m) ≡ live now (Map.get k m)
unfolding cleanup_expired
get-cleanup_expired now k m h = Map.get-delete_if (λ e. ltb e now) k m h

pub save_key_if_absent-IsMap :
    (k : String) (ttl now : ℕ) (m : UsedJtis) → IsMap m → IsMap (save_key_if_absent k ttl now m).1
unfolding save_key_if_absent cleanup_expired
save_key_if_absent-IsMap k ttl now m h =
    let kept = Map.delete_if-IsMap (λ e. ltb e now) m h in
    ground (arith, kept, Map.set-IsMap k (now + ttl) (cleanup_expired now m) kept)

-- In a store that has no key twice, an identifier is accepted exactly when no entry for it is
-- still kept.
pub save_key_if_absent_iff :
    (k : String) (ttl now : ℕ) (m : UsedJtis)
    → IsMap m
    → ((save_key_if_absent k ttl now m).0 ≡ true) ↔ (live now (Map.get k m) ≡ none)
unfolding save_key_if_absent
save_key_if_absent_iff k ttl now m h = ground (arith, get-cleanup_expired now k m h)

-- After the call, accepted or not, the identifier is kept.
pub get-save_key_if_absent :
    (k j : String) (ttl now : ℕ) (m : UsedJtis) {e : ℕ}
    → IsMap m
    → Map.get j m ≡ some e
    → now ≤ e
    → Map.get j (save_key_if_absent k ttl now m).1 ≡ some e
unfolding save_key_if_absent
get-save_key_if_absent k j ttl now m h found fresh = ground (
  arith,
  get-cleanup_expired now j m h,
  get-cleanup_expired now k m h,
  Map.get-set k j (now + ttl) (cleanup_expired now m),
  eq_iff k j,
)

-- One `saveIfAbsent` of either store, as the shared body sees it.
pub record JtiCall : Type 0 where
  pub key : String
  pub ttl_ms : ℕ
  pub now : ℕ

pub run : List JtiCall → UsedJtis → UsedJtis
run [] m = m
run (c ∷ calls) m = run calls (save_key_if_absent c.key c.ttl_ms c.now m).1

abbrev pub AllBy : ℕ → List JtiCall → Type 0
AllBy t [] = Unit {0}
AllBy t (c ∷ calls) = (c.now ≤ t) × AllBy t calls

run-keeps :
    (calls : List JtiCall) (k : String) (e : ℕ) (m : UsedJtis)
    → IsMap m
    → Map.get k m ≡ some e
    → AllBy e calls
    → IsMap (run calls m) × (Map.get k (run calls m) ≡ some e)
unfolding run
run-keeps [] k e m h found early = (h, found)
run-keeps (c ∷ calls) k e m h found early =
    run-keeps calls k e (save_key_if_absent c.key c.ttl_ms c.now m).1
      (save_key_if_absent-IsMap c.key c.ttl_ms c.now m h)
      (get-save_key_if_absent c.key k c.ttl_ms c.now m h found early.0) early.1

pub get-save_key_if_absent_self :
    (k : String) (ttl now : ℕ) (m : UsedJtis)
    → (save_key_if_absent k ttl now m).0 ≡ true
    → Map.get k (save_key_if_absent k ttl now m).1 ≡ some (now + ttl)
unfolding save_key_if_absent
get-save_key_if_absent_self k ttl now m h =
    ground (arith, Map.get-set k k (now + ttl) (cleanup_expired now m), eq_refl k)

refused_while_kept :
    (k : String) (ttl now e : ℕ) (m : UsedJtis)
    → IsMap m
    → Map.get k m ≡ some e
    → now ≤ e
    → (save_key_if_absent k ttl now m).0 ≡ false
unfolding save_key_if_absent
refused_while_kept k ttl now e m h found fresh = ground (arith, get-cleanup_expired now k m h)

-- In a store that has no key twice: once an identifier has been accepted at `now`, a second use
-- of it is refused at every moment up to `now + ttl`, whatever calls were made in between, at
-- moments up to that one.
pub replay_refused :
    (k : String) (ttl now : ℕ) (calls : List JtiCall) (ttl' now' : ℕ) (m : UsedJtis)
    → IsMap m
    → (save_key_if_absent k ttl now m).0 ≡ true
    → AllBy (now + ttl) calls
    → now' ≤ now + ttl
    → (save_key_if_absent k ttl' now' (run calls (save_key_if_absent k ttl now m).1)).0 ≡ false
replay_refused k ttl now calls ttl' now' m h accepted early fresh =
    let (valid, kept) =
      run-keeps calls k (now + ttl) (save_key_if_absent k ttl now m).1
        (save_key_if_absent-IsMap k ttl now m h) (get-save_key_if_absent_self k ttl now m accepted)
        early in
    refused_while_kept k ttl' now' (now + ttl) _ valid kept fresh
