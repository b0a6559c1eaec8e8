-- ===== src/Consumer/Act/Trace.antt =====
-- What a function does to the store is a sequence of calls of the store.
use strk20_indexer.Prelude.{String}
use strk20_indexer.Consumer.Reply.{Reply, done, failed}
use strk20_indexer.Consumer.Mem.{Inner}
use strk20_indexer.Consumer.Mem.Steps.{Step, meta_set, Reachable, after}
use strk20_indexer.Consumer.State.{set_meta}
use strk20_indexer.Consumer.Act.{Act, carry, ◌>>=◌, put_meta}

pub data Trace (g : Inner) : Inner → Type 0 where
  stay : Trace g g
  step : {h k : Inner} → Trace g h → Step h k → Trace g k

pub Trace-append : {g h k : Inner} → Trace g h → Trace h k → Trace g k
Trace-append t stay = t
Trace-append t (step u s) = step (Trace-append t u) s

pub Trace-Reachable : {g h : Inner} → Reachable g → Trace g h → Reachable h
Trace-Reachable r stay = r
Trace-Reachable r (step t s) = after (Trace-Reachable r t) s

-- whatever the answer, the store is reached by calls
abbrev pub Calls : {A : Type 0} → Act A → Type 0
Calls m = (g : Inner) → Trace g (m g).1

pub carry-Trace :
    {A B : Type 0} (g : Inner) (r : Reply A × Inner) (rest : A → Act B)
    → Trace g r.1
    → ((a : A) → Calls (rest a))
    → Trace g (carry r rest).1
carry-Trace g (failed e, h) rest t u = t
carry-Trace g (done a, h) rest t u = Trace-append t (u a h)

pub bind-Calls :
    {A B : Type 0} (m : Act A) (rest : A → Act B)
    → Calls m
    → ((a : A) → Calls (rest a))
    → Calls (m >>= rest)
unfolding ◌>>=◌
bind-Calls m rest t u = λ g. carry-Trace g (m g) rest (t g) u

pub put_meta-Calls : (key value : String) → Calls (put_meta key value)
unfolding set_meta
put_meta-Calls key value = λ g. step stay (meta_set key value)
