-- ===== src/Simulator/Cluster/Machine.antt =====
-- cluster_manager.py: an abstract machine for the requests and the nodes.
use open_tela.Prelude.{ℕ, ◌≡◌, true, none, some, String, string_eq, arith}
use open_tela.Prelude.Dict.{get, length-put_new, length-pop}
use open_tela.Prelude.Sets.{contains}
use open_tela.Simulator.Events.{EventData}
use open_tela.Simulator.Cluster.Ledger.{
  Ledger, Census, Accounted, after_arrival, after_rejection, after_completion, after_failure,
  after_recovery, arrival-Census, rejection-Census, completion-Census, failure-Census,
  recovery-Census,
}

-- What an event with the given dictionary may do to the ledger.
pub data LedgerStep : EventData → Ledger → Ledger → Type 0 where
  rests : {x : EventData} (a : Ledger) → LedgerStep x a a
  arrives :
      (id model : String) (i o h : ℕ) (a : Ledger)
      → LedgerStep (EventData.arrival id model i o) a (after_arrival id h a)
  rejects :
      {x : EventData} (id : String) (h : ℕ) (a : Ledger)
      → get id a.active ≡ some h
      → LedgerStep x a (after_rejection id a)
  completes :
      {x : EventData} (id : String) (h : ℕ) (a : Ledger)
      → get id a.active ≡ some h
      → LedgerStep x a (after_completion id h a)
  fails :
      {x : EventData} (n : String) (a : Ledger)
      → contains n a.online ≡ true
      → LedgerStep x a (after_failure n a)
  recovers :
      {x : EventData} (n : String) (a : Ledger)
      → contains n a.offline ≡ true
      → LedgerStep x a (after_recovery n a)

pub data Reach (a : Ledger) : Ledger → Type 0 where
  here : Reach a a
  next : {x : EventData} {b c : Ledger} → Reach a b → LedgerStep x b c → Reach a c

-- An arrival brings a request whose name no active request has.
abbrev pub Fresh : EventData → Ledger → Type 0
Fresh (EventData.arrival id model i o) a = get id a.active ≡ none
Fresh _ a = Unit

LedgerStep-Census :
    (nodes : String → ℕ) {x : EventData} {a b : Ledger}
    → LedgerStep x a b
    → Census nodes a
    → Census nodes b
LedgerStep-Census nodes (rests a) c = c
LedgerStep-Census nodes (arrives id model i o h a) c = arrival-Census nodes id h a c
LedgerStep-Census nodes (rejects id h a found) c = rejection-Census nodes id h a found c
LedgerStep-Census nodes (completes id h a found) c = completion-Census nodes id h a found c
LedgerStep-Census nodes (fails n a t) c = failure-Census nodes n a t c
LedgerStep-Census nodes (recovers n a t) c = recovery-Census nodes n a t c

pub Reach-Census : (nodes : String → ℕ) {a b : Ledger} → Reach a b → Census nodes a → Census nodes b
Reach-Census nodes here c = c
Reach-Census nodes (next r s) c = LedgerStep-Census nodes s (Reach-Census nodes r c)

pub LedgerStep-Accounted :
    {x : EventData} {a b : Ledger} → LedgerStep x a b → Fresh x a → Accounted a → Accounted b
LedgerStep-Accounted (rests a) new e = e
LedgerStep-Accounted (arrives id model i o h a) new e =
    omega (arith, length-put_new id h a.active new)
LedgerStep-Accounted (rejects id h a found) new e = omega (arith, length-pop id h a.active found)
LedgerStep-Accounted (completes id h a found) new e = omega (arith, length-pop id h a.active found)
LedgerStep-Accounted (fails n a t) new e = e
LedgerStep-Accounted (recovers n a t) new e = e
