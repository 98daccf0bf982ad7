-- ===== src/Sync/Exec.antt =====
-- Actions on the store that may fail: what an action has written before it fails stays written,
-- since the code opens no transaction.
use postblox.Common.{◌≡◌, refl, Result, ok, err, convert_err, Option, none, some}
use postblox.Db.{Store, DbError}
use postblox.Sync.Errors.{SyncError, db}

abbrev pub M {ℓ} : Type ℓ → Type ℓ
M A = Store → Result SyncError A × Store

module _ {ℓ κ} {A : Type ℓ} {B : Type κ} where
  abbrev pub proceed : Result SyncError A × Store → (A → M B) → Result SyncError B × Store
  proceed (ok a, s) f = f a s
  proceed (err e, s) f = (err e, s)

  infixl 5 ◌>>=◌
  abbrev pub ◌>>=◌ : M A → (A → M B) → M B
  ◌>>=◌ m f s = proceed (m s) f

infixl 5 ◌>>◌
abbrev pub ◌>>◌ {ℓ} : {B : Type ℓ} → M (Unit {0}) → M B → M B
m >> k = m >>= λ _. k

module _ {ℓ} {A : Type ℓ} where
  abbrev pub pure : A → M A
  pure a s = (ok a, s)

  abbrev pub fail : SyncError → M A
  fail e s = (err e, s)

  abbrev pub lift : {E : Type 0} → (E → SyncError) → Result E A → M A
  lift f (ok a) s = (ok a, s)
  lift f (err e) s = (err (f e), s)

  abbrev pub required : Option A → SyncError → M A
  required none e s = (err e, s)
  required (some a) e s = (ok a, s)

  abbrev from_db : Result DbError A × Store → Result SyncError A × Store
  from_db (r, s) = (convert_err db r, s)

  -- A statement that a constraint may refuse.
  abbrev pub try_db : (Store → Result DbError A × Store) → M A
  try_db m s = from_db (m s)

  -- A statement that always succeeds.
  abbrev pub query : (Store → A) → M A
  query f s = (ok (f s), s)

abbrev pub modify : (Store → Store) → M (Unit {0})
modify f s = (ok tt, f s)

-- The action keeps what holds of the store, also where it fails.
unfoldable pub Keeps {ℓ} : {A : Type ℓ} → (Store → Type 0) → M A → Type 0
Keeps P m = (s : Store) → P s → P (m s).1

module _ {ℓ κ} {A : Type ℓ} {B : Type κ} (P : Store → Type 0) where
  proceed-keeps :
      (o : Result SyncError A × Store) (f : A → M B)
      → P o.1
      → ((a : A) → Keeps P (f a))
      → P (proceed o f).1
  unfolding Keeps
  proceed-keeps (ok a, s) f h k = k a s h
  proceed-keeps (err e, s) f h k = h

  -- The rule for a sequence.
  pub Keeps-bind :
      (m : M A) (f : A → M B) → Keeps P m → ((a : A) → Keeps P (f a)) → Keeps P (m >>= f)
  unfolding Keeps
  Keeps-bind m f h k s p = proceed-keeps (m s) f (h s p) k

-- A query, in the form to which a sequence that begins with it computes.
pub Keeps-ask {ℓ κ} :
    {A : Type ℓ} {B : Type κ} (P : Store → Type 0) (f : Store → A) (k : A → M B)
    → ((a : A) → Keeps P (k a))
    → Keeps P (λ s. k (f s) s)
unfolding Keeps
Keeps-ask P f k h s p = h (f s) s p

module _ {ℓ} {A : Type ℓ} (P : Store → Type 0) where
  pub Keeps-pure : (a : A) → Keeps P (pure a)
  unfolding Keeps
  Keeps-pure a s p = p

  pub Keeps-lift : {E : Type 0} (f : E → SyncError) (r : Result E A) → Keeps P (lift f r)
  unfolding Keeps
  Keeps-lift f (ok a) s p = p
  Keeps-lift f (err e) s p = p

  pub Keeps-required : (o : Option A) (e : SyncError) → Keeps P (required o e)
  unfolding Keeps
  Keeps-required none e s p = p
  Keeps-required (some a) e s p = p

  pub Keeps-query : (f : Store → A) → Keeps P (query f)
  unfolding Keeps
  Keeps-query f s p = p

  pub Keeps-try_db :
      (m : Store → Result DbError A × Store) → ((s : Store) → P s → P (m s).1) → Keeps P (try_db m)
  unfolding Keeps
  Keeps-try_db m h s p = h s p

pub Keeps-fail {ℓ} : (A : Type ℓ) (P : Store → Type 0) (e : SyncError) → Keeps {A = A} P (fail e)
unfolding Keeps
Keeps-fail A P e s p = p

pub Keeps-modify :
    (P : Store → Type 0) (f : Store → Store) → ((s : Store) → P s → P (f s)) → Keeps P (modify f)
unfolding Keeps
Keeps-modify P f h s p = h s p

module _ {ℓ κ} {A : Type ℓ} {B : Type κ} where
  -- A sequence that ended well: its first part did, and then its second.
  pub >>=-ok :
      (m : M A) (f : A → M B) (s : Store) (b : B) (t : Store)
      → (m >>= f) s ≡ (ok b, t)
      → (a : A) × (u : Store) × (m s ≡ (ok a, u)) × (f a u ≡ (ok b, t))
  >>=-ok m f s b t h = go (m s) refl h
    where
      go :
          (o : Result SyncError A × Store)
          → m s ≡ o
          → proceed o f ≡ (ok b, t)
          → (a : A) × (u : Store) × (m s ≡ (ok a, u)) × (f a u ≡ (ok b, t))
      go (ok a, u) e h = (a, u, e, h)
      go (err x, u) e h = absurd (cc h)
