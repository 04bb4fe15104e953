-- ===== src/Prelude/Exec.antt =====
-- Methods that mutate an object and may raise. What was written before a raise stays written, so the
-- state comes back beside the error too.

use helpdesktool.Prelude.{◌≡◌, refl}

-- `E` is the type of what is raised.
pub data Result {ℓ} (E : Type ℓ) (A : Type ℓ) : Type ℓ where
  ok : A → Result E A
  err : E → Result E A

abbrev pub Exec {ℓ} : Type ℓ → Type ℓ → Type ℓ → Type ℓ
Exec E S A = S → Result E A × S

module _ {ℓ} {E S A : Type ℓ} where
  abbrev pub pure : A → Exec E S A
  pure a s = (ok a, s)

  abbrev pub raise : E → Exec E S A
  raise e s = (err e, s)

  abbrev pub lift : Result E A → Exec E S A
  lift r s = (r, s)

module _ {ℓ} {E S A B : Type ℓ} where
  abbrev pub continue : Result E A → (A → Exec E S B) → Exec E S B
  continue (ok a) f s = f a s
  continue (err e) f s = (err e, s)

  infixl 10 ◌>>=◌ ◌>>◌
  abbrev pub ◌>>=◌ : Exec E S A → (A → Exec E S B) → Exec E S B
  ◌>>=◌ m f s = let (r, s') = m s in continue r f s'

  abbrev pub ◌>>◌ : Exec E S A → Exec E S B → Exec E S B
  m >> n = m >>= λ _. n

-- both actions of a sequence that returned have returned
pub bind-ok :
    {E S A B : Type 0} (m : Exec E S A) (f : A → Exec E S B) (s t : S) (b : B)
    → (m >>= f) s ≡ (ok b, t)
    → (a : A) × (s' : S) × (m s ≡ (ok a, s')) × (f a s' ≡ (ok b, t))
bind-ok {E = E} {S = S} {A = A} m f s t b h = go (m s).0 (m s).1 refl h
  where
    go :
        (r : Result E A) (u : S)
        → m s ≡ (r, u)
        → continue r f u ≡ (ok b, t)
        → (a : A) × (s' : S) × (m s ≡ (ok a, s')) × (f a s' ≡ (ok b, t))
    go (ok a) u e k = (a, u, e, k)
    go (err x) u e k = cc

module _ {E S A B : Type 0} (P M Q : S → Type 0) where
  -- what the first action reaches, and the second goes on from, where an exception may also end
  pub bind-moves :
      (m : Exec E S A) (f : A → Exec E S B)
      → ((s : S) → M s → Q s)
      → ((s : S) → P s → M (m s).1)
      → ((a : A) (s : S) → M s → Q (f a s).1)
      → (s : S) → P s
      → Q ((m >>= f) s).1
  bind-moves m f w km kf s h = go (m s).0 (m s).1 (km s h)
    where
      go : (r : Result E A) (t : S) → M t → Q (continue r f t).1
      go (ok a) t k = kf a t k
      go (err e) t k = w t k

module _ {E S A B : Type 0} (P : S → Type 0) where
  -- a property of the state that both actions keep, whether they return or raise
  pub bind-keeps :
      (m : Exec E S A) (f : A → Exec E S B)
      → ((s : S) → P s → P (m s).1)
      → ((a : A) (s : S) → P s → P (f a s).1)
      → (s : S) → P s
      → P ((m >>= f) s).1
  bind-keeps m f km kf s h = go (m s).0 (m s).1 (km s h)
    where
      go : (r : Result E A) (t : S) → P t → P (continue r f t).1
      go (ok a) t k = kf a t k
      go (err e) t k = k
