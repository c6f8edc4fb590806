-- ===== src/Spts/Callback/Agrees.antt =====
-- When a list of packets stands for the calls of the callback, one rule for each way to build a
-- `do` block.
use sptsmuxer.Base.{◌≡◌, refl, sym, ◌∙◌, ap, List, [], ◌∷◌, ◌++◌, Bytes, Result, ok, fault}
use sptsmuxer.Base.Fault
use sptsmuxer.Base.Fault.{Fault}
use sptsmuxer.Spts.Callback.{Callback, Writes, pure, lift, followed, ◌>>=◌, ◌>>◌, write_packet}

module _ {ℓ} {Data : Type ℓ} where
  -- The callback on each of the packets, in their order.
  unfoldable pub write_all : List Bytes → Writes Data (Unit {0})
  write_all [] = pure tt
  write_all (packet ∷ packets) = do write_packet packet; write_all packets

  followed_assoc :
      {A B C : Type 0} (r : Result (A × Callback Data)) (f : A → Writes Data B)
      (g : B → Writes Data C)
      → followed (followed r f) g ≡ followed r (λ a. f a >>= g)
  followed_assoc (ok (a, next)) f g = refl
  followed_assoc (fault e) f g = refl

  followed_eq :
      {A B : Type 0} (r : Result (A × Callback Data)) (f g : A → Writes Data B)
      → ((a : A) (next : Callback Data) → f a next ≡ g a next)
      → followed r f ≡ followed r g
  followed_eq (ok (a, next)) f g e = e a next
  followed_eq (fault x) f g e = refl

  write_all-append :
      (xs ys : List Bytes) (callback : Callback Data)
      → write_all (xs ++ ys) callback ≡ (write_all xs >> write_all ys) callback
  unfolding write_all
  write_all-append [] ys callback = refl
  write_all-append (x ∷ xs) ys callback =
      followed_eq (write_packet x callback) _ _ (λ _ next. write_all-append xs ys next)
      ∙ sym (followed_assoc (write_packet x callback) (λ _. write_all xs) (λ _. write_all ys))

  write_all_then :
      {A : Type 0} (xs ys : List Bytes) (k : Writes Data A) (callback : Callback Data)
      → (write_all (xs ++ ys) >> k) callback ≡ (write_all xs >> (write_all ys >> k)) callback
  write_all_then xs ys k callback =
      ap (λ r. followed r (λ _. k)) (write_all-append xs ys callback)
      ∙ followed_assoc (write_all xs callback) (λ _. write_all ys) (λ _. k)

  followed_fault :
      {A B : Type 0} (r : Result (A × Callback Data)) (f : A → Writes Data B)
      → ((a : A) (next : Callback Data) → (e : Fault) × (f a next ≡ fault e))
      → (e : Fault) × (followed r f ≡ fault e)
  followed_fault (ok (a, next)) f faults = faults a next
  followed_fault (fault e) f faults = (e, refl)

  -- Behind the packets `before`: where `m` returns, `k` has called the callback on the rest of its
  -- packets and returns the same; where `m` faults, so does `k`.
  abbrev pub Runs :
      {X A : Type 0} → (X → A) → (X → List Bytes) → List Bytes → Result X → Writes Data A → Type ℓ
  Runs out packets before (ok x) k =
      (callback : Callback Data)
      → (write_all before >> k) callback ≡ (write_all (packets x) >> pure (out x)) callback
  Runs out packets before (fault e) k =
      (callback : Callback Data) → (e' : Fault) × ((write_all before >> k) callback ≡ fault e')

  pub record After {X A : Type 0} (out : X → A) (packets : X → List Bytes) (before : List Bytes)
      (m : Result X) (k : Writes Data A) : Type ℓ where
    pub runs : Runs out packets before m k

  -- The same list for another form of the action.
  Runs-eq :
      {X A : Type 0} (out : X → A) (packets : X → List Bytes) (before others : List Bytes)
      (m : Result X) (k l : Writes Data A)
      → ((callback : Callback Data)
          → (write_all before >> k) callback ≡ (write_all others >> l) callback)
      → Runs out packets others m l
      → Runs out packets before m k
  Runs-eq out packets before others (ok x) k l e h = λ callback. e callback ∙ h callback
  Runs-eq out packets before others (fault x) k l e h =
      λ callback. ((h callback).0, e callback ∙ (h callback).1)

  Runs-call :
      {X A Y B : Type 0} (out : X → A) (packets : X → List Bytes) (got : Y → B)
      (wrote : Y → List Bytes) (before : List Bytes) (m : Result Y) (k : Writes Data B)
      (f : Y → Result X) (g : B → Writes Data A)
      → Runs got wrote [] m k
      → ((y : Y) → Runs out packets (before ++ wrote y) (f y) (g (got y)))
      → Runs out packets before (Fault.◌>>=◌ m f) (k >>= g)
  unfolding write_all
  Runs-call out packets got wrote before (ok y) k f g inner rest =
      Runs-eq out packets before (before ++ wrote y) (f y) (k >>= g) (g (got y))
        (λ callback.
          followed_eq (write_all before callback) _ _ (λ _ next.
            ap (λ r. followed r g) (inner next)
            ∙ followed_assoc (write_all (wrote y) next) (λ _. pure (got y)) g)
          ∙ sym (write_all_then before (wrote y) (g (got y)) callback))
        (rest y)
  Runs-call out packets got wrote before (fault e) k f g inner rest = λ callback.
      followed_fault (write_all before callback) _
        (λ _ next. ((inner next).0, ap (λ r. followed r g) (inner next).1))

  followed-pure : {A : Type 0} (r : Result (A × Callback Data)) → r ≡ followed r pure
  followed-pure (ok (a, next)) = refl
  followed-pure (fault e) = refl

  module _ {X A : Type 0} {out : X → A} {packets : X → List Bytes} {before : List Bytes} where
    pub After-fault : (e : Fault) → After out packets before (fault e) (lift (fault e))
    After-fault e = record {
      runs = λ callback. followed_fault (write_all before callback) _ (λ _ next. (e, refl));
    }

    pub After-ok : (x : X) → packets x ≡ before → After out packets before (ok x) (pure (out x))
    After-ok x e = record { runs = λ callback. rw e refl }

    pub After-write :
        (packet : Bytes) (m : Result X) (k : Writes Data A)
        → After out packets (before ++ packet ∷ []) m k
        → After out packets before m (write_packet packet >> k)
    unfolding write_all
    After-write packet m k h = record {
      runs =
          Runs-eq out packets before (before ++ packet ∷ []) m _ k
            (λ callback.
              followed_eq (write_all before callback) _ _
                (λ _ next. sym (followed_assoc (write_packet packet next) (λ _. pure tt) (λ _. k)))
              ∙ sym (write_all_then before (packet ∷ []) k callback))
            h.runs;
    }

    pub After-lift :
        {B : Type 0} (r : Result B) (f : B → Result X) (g : B → Writes Data A)
        → ((b : B) → After out packets before (f b) (g b))
        → After out packets before (Fault.◌>>=◌ r f) (lift r >>= g)
    After-lift (ok b) f g h = h b
    After-lift (fault e) f g h = After-fault e

    module _ {Y B : Type 0} {got : Y → B} {wrote : Y → List Bytes} (m : Result Y)
        (k : Writes Data B) where
      -- A call of a function that has the callback too.
      pub After-call :
          (f : Y → Result X) (g : B → Writes Data A)
          → After got wrote [] m k
          → ((y : Y) → After out packets (before ++ wrote y) (f y) (g (got y)))
          → After out packets before (Fault.◌>>=◌ m f) (k >>= g)
      After-call f g inner rest = record {
        runs = Runs-call out packets got wrote before m k f g inner.runs (λ y. (rest y).runs);
      }

  -- A call whose result is returned, behind the packets before it.
  pub After-tail :
      {X Y A : Type 0} {out : X → A} {packets : X → List Bytes} {got : Y → A}
      {wrote : Y → List Bytes} {before : List Bytes} (m : Result Y) (k : Writes Data A) (c : Y → X)
      → After got wrote [] m k
      → ((y : Y) → packets (c y) ≡ before ++ wrote y)
      → ((y : Y) → out (c y) ≡ got y)
      → After out packets before (Fault.◌>>=◌ m (λ y. ok (c y))) k
  After-tail {out} {packets} {got} {wrote} {before} m k c inner p o = record {
    runs =
        Runs-eq out packets before before _ k (k >>= pure)
          (λ callback.
            followed_eq (write_all before callback) _ _ (λ _ next. followed-pure (k next)))
          (After-call {packets = packets} m k (λ y. ok (c y)) pure inner
            (λ y. rw (← o y) (After-ok (c y) (p y)))).runs;
  }

  -- What a function of the model returns with the packets at the end.
  abbrev pub Returns : {A : Type 0} → List Bytes → Result (A × List Bytes) → Writes Data A → Type ℓ
  Returns = After (λ r. r.0) (λ r. r.1)

  abbrev pub ReturnsPair :
      {A B : Type 0} → List Bytes → Result (A × B × List Bytes) → Writes Data (A × B) → Type ℓ
  ReturnsPair = After (λ r. (r.0, r.1)) (λ r. r.2)
