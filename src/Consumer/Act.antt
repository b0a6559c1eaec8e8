-- ===== src/Consumer/Act.antt =====
-- The functions of crates/consumer and crates/indexerd that read and write a store on their way: an
-- answer with the store that they leave, also when they fail.
pub mod Trace
use strk20_indexer.Prelude.{Bool, true, false, String, Option, none, some, ◌≡◌, refl}
use strk20_indexer.Consumer.Reply.{Failure, bail, panicked, Reply, done, failed}
use strk20_indexer.Map.{meta_insert, meta_get}
use strk20_indexer.Consumer.Mem.{Inner}
use strk20_indexer.Consumer.State.{set_meta}

abbrev pub Run : Type 0 → Type 0 → Type 0
Run S A = S → Reply A × S

-- over the mirror
abbrev pub Act : Type 0 → Type 0
Act A = Run Inner A

-- `?` on an answer, with the store that goes on
abbrev pub carry : {S A B : Type 0} → Reply A × S → (A → Run S B) → Reply B × S
carry (failed e, g) rest = (failed e, g)
carry (done a, g) rest = rest a g

infixl 5 ◌>>=◌ ◌>>◌
unfoldable pub ◌>>=◌ : {S A B : Type 0} → Run S A → (A → Run S B) → Run S B
(m >>= rest) g = carry (m g) rest

abbrev pub ◌>>◌ : {S A B : Type 0} → Run S A → Run S B → Run S B
m >> rest = m >>= (λ _. rest)

abbrev pub give : {S A : Type 0} → A → Run S A
give a g = (done a, g)

abbrev pub stop : {S A : Type 0} → String → Run S A
stop message g = (failed (bail message), g)

-- what does not write
abbrev pub look : {S A : Type 0} → (S → Reply A) → Run S A
look f g = (f g, g)

abbrev pub answer : {S A : Type 0} → Reply A → Run S A
answer r g = (r, g)

abbrev pub put_meta : String → String → Act (Unit {0})
put_meta key value g = (done tt, set_meta key value g)

abbrev pub read_meta : String → Act (Option String)
read_meta key g = (done (meta_get key g.meta), g)

abbrev pub check : {S : Type 0} → Bool → String → Run S (Unit {0})
check true message g = (done tt, g)
check false message g = (failed (bail message), g)

-- What stands behind an answer, handed to the rest of a proof.
module _ {ℓ} {S A B : Type 0} {P : Type ℓ} where
  of_carry :
      (m : Run S A) (rest : A → Run S B) (g : S) {b : B} {h : S} (r : Reply A × S)
      → m g ≡ r
      → carry r rest ≡ (done b, h)
      → ((a : A) (k : S) → m g ≡ (done a, k) → rest a k ≡ (done b, h) → P)
      → P
  of_carry m rest g (failed e, k) p q go = absurd (cc)
  of_carry m rest g (done a, k) p q go = go a k p q

  pub after_step :
      (m : Run S A) (rest : A → Run S B) (g : S) {b : B} {h : S}
      → (m >>= rest) g ≡ (done b, h)
      → ((a : A) (k : S) → m g ≡ (done a, k) → rest a k ≡ (done b, h) → P)
      → P
  unfolding ◌>>=◌
  after_step m rest g q go = of_carry m rest g (m g) refl q go

  of_reply :
      (r r' : Reply A) (rest : A → Run S B) (g : S) {b : B} {h : S}
      → r ≡ r'
      → carry (r', g) rest ≡ (done b, h)
      → ((a : A) → r ≡ done a → rest a g ≡ (done b, h) → P)
      → P
  of_reply r (failed e) rest g p q go = absurd (cc)
  of_reply r (done a) rest g p q go = go a p q

  pub after_answer :
      (r : Reply A) (rest : A → Run S B) (g : S) {b : B} {h : S}
      → (answer r >>= rest) g ≡ (done b, h)
      → ((a : A) → r ≡ done a → rest a g ≡ (done b, h) → P)
      → P
  unfolding ◌>>=◌
  after_answer r rest g q go = of_reply r r rest g refl q go

  pub after_look :
      (f : S → Reply A) (rest : A → Run S B) (g : S) {b : B} {h : S}
      → (look f >>= rest) g ≡ (done b, h)
      → ((a : A) → f g ≡ done a → rest a g ≡ (done b, h) → P)
      → P
  unfolding ◌>>=◌
  after_look f rest g q go = of_reply (f g) (f g) rest g refl q go

module _ {ℓ} {S B : Type 0} {P : Type ℓ} where
  pub after_check :
      (test : Bool) (message : String) (rest : Unit {0} → Run S B) (g : S) {b : B} {h : S}
      → (check test message >>= rest) g ≡ (done b, h)
      → (test ≡ true → rest tt g ≡ (done b, h) → P)
      → P
  unfolding ◌>>=◌
  after_check true message rest g q go = go refl q
  after_check false message rest g q go = absurd (cc)

pub check-eq-done :
    {S : Type 0} (test : Bool) (message : String) (g : S) {u : Unit {0}} {h : S}
    → check test message g ≡ (done u, h)
    → (test ≡ true) × (h ≡ g)
check-eq-done true message g q = (refl, cc)
check-eq-done false message g q = absurd (cc)
