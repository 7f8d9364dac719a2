-- ===== src/Raft/Voting/Invariant.antt =====
-- The invariant of the votes, over the parts of a node that it speaks of.
use raft_thesis.Base.{
  List, Option, [], arith, inl, inr, refl, some, some_inj, ◌<◌, ◌∙◌, ◌∷◌, ◌≡◌, ◌≢◌, ◌≤◌, ◌⊎◌,
}
use raft_thesis.Raft.Node.{get_last_log_info}
use raft_thesis.Raft.Types.{NodeId, State, Term, leader, no_node}
use raft_thesis.Raft.Voting.{All, OnePerTerm, Traced}

pub record Inv (term : Term) (voted : NodeId) (state : State) (last : Term)
    (votes : List (Term × NodeId)) (led : Option Term) : Type 0 where
  pub once : OnePerTerm votes
  pub past : All (λ v. v.0 ≤ term) votes
  pub present :
      All (λ v. v.0 ≡ term → ((v.1 ≡ voted) × (voted ≢ no_node)) ⊎ (led ≡ some term)) votes
  pub leading : state ≡ leader → led ≡ some term
  pub ruled : (t : Term) → led ≡ some t → t ≤ term
  pub own : led ≡ some term → last ≡ term

-- The invariant of a traced node.
abbrev pub TracedInv : Traced → Type 0
TracedInv s =
    Inv s.node.current_term s.node.voted_for s.node.state (get_last_log_info s.node).1 s.votes s.led

pub All-map :
    {P Q : Term × NodeId → Type 0} (votes : List (Term × NodeId))
    → ((v : Term × NodeId) → P v → Q v)
    → All P votes
    → All Q votes
All-map [] f h = tt
All-map (v ∷ vs) f (p, h) = (f v p, All-map vs f h)

-- In a newer term nothing was cast yet, and the node does not lead.
pub Inv-risen :
    (term term' : Term) (voted voted' : NodeId) (state state' : State) (last last' : Term)
    (votes : List (Term × NodeId)) (led : Option Term)
    → Inv term voted state last votes led
    → term < term'
    → state' ≢ leader
    → Inv term' voted' state' last' votes led
Inv-risen term term' voted voted' state state' last last' votes led h up quiet = record {
  once = h.once;
  past = All-map votes (λ v p. omega arith) h.past;
  present = All-map votes (λ v p e. absurd (omega arith)) h.past;
  leading = λ e. absurd (quiet e);
  ruled = λ t e. omega (arith, h.ruled t e);
  own = λ e. absurd (omega (arith, h.ruled term' e));
}

-- In the term that the node led it may forget its vote.
pub Inv-resigned :
    (term : Term) (voted voted' : NodeId) (state state' : State) (last : Term)
    (votes : List (Term × NodeId)) (led : Option Term)
    → Inv term voted state last votes led
    → led ≡ some term
    → Inv term voted' state' last votes led
Inv-resigned term voted voted' state state' last votes led h mine = record {
  once = h.once;
  past = h.past;
  present = All-map votes (λ v p e. inr mine) h.past;
  leading = λ e. mine;
  ruled = h.ruled;
  own = h.own;
}

-- A vote for the candidate that votedFor names, or the first of its term.
pub Inv-cast :
    (term : Term) (voted : NodeId) (state : State) (last : Term) (votes : List (Term × NodeId))
    (led : Option Term)
    → Inv term voted state last votes led
    → voted ≢ no_node
    → led ≢ some term
    → Inv term voted state last ((term, voted) ∷ votes) led
Inv-cast term voted state last votes led h someone fresh = record {
  once = (
    All-map votes (λ v p e. elim (p e) [ inl (q, _) ↦ q | inr mine ↦ absurd (fresh mine) ])
        h.present,
    h.once,
  );
  past = (omega arith, h.past);
  present = ((λ e. inl (refl, someone)), h.present);
  leading = h.leading;
  ruled = h.ruled;
  own = h.own;
}

-- votedFor may be set in a term in which nothing was cast, or to what it is.
pub Inv-voted :
    (term : Term) (voted voted' : NodeId) (state : State) (last : Term)
    (votes : List (Term × NodeId)) (led : Option Term)
    → Inv term voted state last votes led
    → ((voted ≡ no_node) ⊎ (voted ≡ voted'))
    → voted' ≢ no_node
    → Inv term voted' state last votes led
Inv-voted term voted voted' state last votes led h free someone = record {
  once = h.once;
  past = h.past;
  present =
      All-map votes
        (λ v p e. elim (p e) [
          | inl (q, some') ↦ elim free [
            | inl none' ↦ absurd (some' none')
            | inr named ↦ inl (q ∙ named, someone)
          ]
          | inr mine ↦ inr mine
        ])
        h.present;
  leading = h.leading;
  ruled = h.ruled;
  own = h.own;
}

-- The log may change in a term that the node did not lead, or keep the leader's term at its end.
pub Inv-logged :
    (term : Term) (voted : NodeId) (state : State) (last last' : Term)
    (votes : List (Term × NodeId)) (led : Option Term)
    → Inv term voted state last votes led
    → (led ≡ some term → last' ≡ term)
    → Inv term voted state last' votes led
Inv-logged term voted state last last' votes led h own' = record {
  once = h.once;
  past = h.past;
  present = h.present;
  leading = h.leading;
  ruled = h.ruled;
  own = own';
}

-- Taking office in the present term.
pub Inv-office :
    (term : Term) (voted : NodeId) (state : State) (last : Term) (votes : List (Term × NodeId))
    (led : Option Term)
    → Inv term voted state last votes led
    → Inv term voted leader term votes (some term)
Inv-office term voted state last votes led h = record {
  once = h.once;
  past = h.past;
  present = All-map votes (λ v p e. inr refl) h.past;
  leading = λ e. refl;
  ruled = λ t e. omega (arith, some_inj e);
  own = λ e. refl;
}
