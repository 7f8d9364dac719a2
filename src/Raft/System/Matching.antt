-- ===== src/Raft/System/Matching.antt =====
-- What always holds of the logs of a cluster: all of them follow one history, which its leaders write.
use mathlib.Core.Path.{subst}
use raft_thesis.Base.{
  List, Option, [], ap, arith, false≢true, inl, inr, int_eq, length, refl, some, sym, take,
  ℕ_discrete, ◌++◌, ◌∙◌, ◌≡◌, ◌≢◌, ◌≤◌, ◌⊎◌,
}
use raft_thesis.Raft.Service.Replicates.{CutFrom}
use raft_thesis.Raft.System.{Sent, put}
use raft_thesis.Raft.System.Founded.{AllOf, AllOf-term_at}
use raft_thesis.Raft.System.Invariant.{Grows, IsMember, Won, Won_mono, Won_unique}
use raft_thesis.Raft.System.Turns.{put_lem, put_other_lem}
use raft_thesis.Raft.System.Writing.{
  CutFrom-Extends, Extends, Follows, Follows-Extends, Follows-write, History, write, write-Extends,
  write-at, write-other,
}
use raft_thesis.Raft.Types.{AppendEntriesArgs, LogEntry, NodeId, State, Term, candidate, leader}
use raft_thesis.Raft.Voting.{Traced}

-- A node won the term and led it, or a later one.
abbrev pub Owner : List NodeId → (NodeId → Traced) → Term → Type 0
Owner voters nodes t =
    (a : NodeId) × (u : Term) × Won voters nodes t a × ((nodes a).led ≡ some u) × (t ≤ u)

pub record Matched (voters : List NodeId) (nodes : NodeId → Traced)
    (sent : List (NodeId × AppendEntriesArgs)) (h : History) : Type 0 where
  pub follows : (i : NodeId) → Follows h (nodes i).node.log
  pub self : (t : Term) → Follows h (h t)
  pub lead :
      (i : NodeId)
      → (nodes i).node.state ≡ leader
      → h (nodes i).node.current_term ≡ (nodes i).node.log
  pub owned : (t : Term) → t ≢ 0 → (h t ≡ []) ⊎ Owner voters nodes t
  pub runs :
      (i : NodeId)
      → (nodes i).node.state ≡ candidate
      → (nodes i).led ≢ some (nodes i).node.current_term
  pub cut :
      (to : NodeId) (args : AppendEntriesArgs) → Sent (to, args) sent → CutFrom (h args.term) args

-- The last term led only rises.
abbrev pub Rises : Option Term → Option Term → Type 0
Rises led led' = (u : Term) → led ≡ some u → (u' : Term) × (led' ≡ some u') × (u ≤ u')

module _ (voters : List NodeId) (nodes : NodeId → Traced) (i : NodeId) (s : Traced)
    (grows : Grows nodes (put i s nodes)) (rises : Rises (nodes i).led s.led) where
  Owner-put : (t : Term) → Owner voters nodes t → Owner voters (put i s nodes) t
  Owner-put t (a, u, won, led, up) =
      let (u', led', up') =
        put_lem
          (λ b s'.
            (w : Term) → (nodes b).led ≡ some w → (w' : Term) × (s'.led ≡ some w') × (w ≤ w'))
          i s nodes rises (λ b w e. (w, e, omega arith)) a u led in
      (a, u', Won_mono voters nodes (put i s nodes) t a grows won, led', omega arith)

  module _ (sent sent' : List (NodeId × AppendEntriesArgs)) (h : History)
      (m : Matched voters nodes sent h) where
    -- A node changes and no leader writes.
    pub unwritten :
        Follows h s.node.log
        → (s.node.state ≡ leader → h s.node.current_term ≡ s.node.log)
        → (s.node.state ≡ candidate → s.led ≢ some s.node.current_term)
        → ((to : NodeId) (args : AppendEntriesArgs)
            → Sent (to, args) sent'
            → CutFrom (h args.term) args)
        → Matched voters (put i s nodes) sent' h
    unwritten f l r c = record {
      follows = put_lem (λ j s'. Follows h s'.node.log) i s nodes f m.follows;
      self = m.self;
      lead =
          put_lem (λ j s'. s'.node.state ≡ leader → h s'.node.current_term ≡ s'.node.log) i s nodes
            l m.lead;
      owned = λ t nz. elim (m.owned t nz) [ inl none' ↦ inl none' | inr o ↦ inr (Owner-put t o) ];
      runs =
          put_lem (λ j s'. s'.node.state ≡ candidate → s'.led ≢ some s'.node.current_term) i s nodes
            r m.runs;
      cut = c;
    }

    -- A leader adds to the log of its term.
    module _ (old new' : List LogEntry) (log : s.node.log ≡ old ++ new')
        (own : AllOf s.node.current_term new')
        (before : take (length (h s.node.current_term)) (old ++ new') ≡ h s.node.current_term)
        (followed : Follows h old) where
      abbrev pub written_history : History
      written_history = write s.node.current_term (old ++ new') h

      extends : Extends h written_history
      extends = write-Extends h s.node.current_term (old ++ new') before

      writes : Follows written_history (old ++ new')
      writes =
          Follows-write h s.node.current_term old new' followed before
            (λ k u far at. AllOf-term_at s.node.current_term old new' k u own far at)

      written_self : (t : Term) → Follows written_history (written_history t)
      written_self t = elim (ℕ_discrete t s.node.current_term) [
        | yes same ↦
            subst (Follows written_history)
              (sym (ap written_history same ∙ write-at h s.node.current_term (old ++ new'))) writes
        | no other ↦
            subst (Follows written_history)
              (sym (write-other h s.node.current_term t (old ++ new') other))
              (Follows-Extends h written_history (h t) extends (m.self t))
      ]

      pub written :
          s.node.state ≡ leader
          → s.led ≡ some s.node.current_term
          → ((j : NodeId) → IsMember voters j (put i s nodes j))
          → Won voters (put i s nodes) s.node.current_term i
          → ((j : NodeId)
              → (nodes j).node.state ≡ leader
              → Won voters nodes (nodes j).node.current_term j)
          → Matched voters (put i s nodes) sent written_history
      written leads led members won wins = record {
        follows =
            put_lem (λ j s'. Follows written_history s'.node.log) i s nodes (rw log writes)
              (λ j. Follows-Extends h written_history (nodes j).node.log extends (m.follows j));
        self = written_self;
        lead =
            put_other_lem
              (λ j s'. s'.node.state ≡ leader → written_history s'.node.current_term ≡ s'.node.log)
              i s nodes (λ e. write-at h s.node.current_term (old ++ new') ∙ sym log)
              (λ j other e.
                write-other h s.node.current_term (nodes j).node.current_term (old ++ new') (λ same.
                  false≢true (
                    sym other
                    ∙ (int_eq.beq_iff j i).1 (
                        Won_unique voters (put i s nodes) s.node.current_term j i members
                          (subst (λ t. Won voters (put i s nodes) t j) same
                            (Won_mono voters nodes (put i s nodes) (nodes j).node.current_term j
                              grows (wins j e)))
                          won)))
                ∙ m.lead j e);
        owned = λ t nz. elim (ℕ_discrete t s.node.current_term) [
          | yes same ↦ inr (
            i,
            s.node.current_term,
            subst (λ t'. Won voters (put i s nodes) t' i) (sym same) won,
            rw ((int_eq.beq_iff i i).1 refl) led,
            omega arith,
          )
          | no other ↦ elim (m.owned t nz) [
            | inl none' ↦ inl (write-other h s.node.current_term t (old ++ new') other ∙ none')
            | inr o ↦ inr (Owner-put t o)
          ]
        ];
        runs =
            put_lem (λ j s'. s'.node.state ≡ candidate → s'.led ≢ some s'.node.current_term) i s
              nodes (λ e. absurd (leads_ne s.node.state leads e)) m.runs;
        cut = λ to args e. CutFrom-Extends h written_history args extends (m.cut to args e);
      }
        where
          differ : leader ≢ candidate
          differ e = cc

          leads_ne : (st : State) → st ≡ leader → st ≢ candidate
          leads_ne st p q = absurd (differ (sym p ∙ q))
