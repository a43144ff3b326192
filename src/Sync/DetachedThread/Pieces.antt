-- ===== src/Sync/DetachedThread/Pieces.antt =====
-- Chapter 2/thread_creation_example.cpp: what each thread has printed where it stands.
use c_programming_for_linux.Prelude.{◌≡◌, ◌≢◌, refl, Bool, true, false, List, [], ◌∷◌, some, arith}
use c_programming_for_linux.Sync.DetachedThread.{
  Turn, main_turn, detached_turn, joined_turn, Test, before_detach, after_detach, before_join,
  after_join, Part, Piece, starting_creator, exiting_creator, starting_detached, exiting_detached,
  starting_joined, exiting_joined, label, value, endl, MainPc, Pc, State, process_runs, main_step,
  detached_step, joined_step, step,
}

-- What the detached thread, the joined one, and main have printed, newest first.
abbrev pub detached_pieces : List Piece → List Piece
detached_pieces [] = []
detached_pieces (starting_detached ∷ ps) = starting_detached ∷ detached_pieces ps
detached_pieces (exiting_detached ∷ ps) = exiting_detached ∷ detached_pieces ps
detached_pieces (p ∷ ps) = detached_pieces ps

abbrev pub joined_pieces : List Piece → List Piece
joined_pieces [] = []
joined_pieces (starting_joined ∷ ps) = starting_joined ∷ joined_pieces ps
joined_pieces (exiting_joined ∷ ps) = exiting_joined ∷ joined_pieces ps
joined_pieces (p ∷ ps) = joined_pieces ps

abbrev pub main_pieces : List Piece → List Piece
main_pieces [] = []
main_pieces (starting_detached ∷ ps) = main_pieces ps
main_pieces (exiting_detached ∷ ps) = main_pieces ps
main_pieces (starting_joined ∷ ps) = main_pieces ps
main_pieces (exiting_joined ∷ ps) = main_pieces ps
main_pieces (p ∷ ps) = p ∷ main_pieces ps

-- What was printed before the last of the four lines begins.
abbrev pub before_last_line : List Piece → List Piece
before_last_line [] = []
before_last_line (label after_join ∷ ps) = ps
before_last_line (p ∷ ps) = before_last_line ps

-- A line on `joinable`, after what was printed before.
abbrev pub line : Test → Bool → List Piece → List Piece
line t b ps = endl ∷ value b ∷ label t ∷ ps

abbrev pub shown : Test → Bool
shown before_detach = true
shown after_detach = false
shown before_join = true
shown after_join = false

-- What main has printed before a line.
abbrev pub past : Test → List Piece
past before_detach = starting_creator ∷ []
past after_detach = line before_detach true (starting_creator ∷ [])
past before_join = line after_detach false (line before_detach true (starting_creator ∷ []))
past after_join =
    line before_join true
      (line after_detach false (line before_detach true (starting_creator ∷ [])))

abbrev pub all_lines : List Piece
all_lines = exiting_creator ∷ line after_join false (past after_join)

abbrev pub both_joined : List Piece
both_joined = exiting_joined ∷ starting_joined ∷ []

abbrev pub main_said : MainPc → List Piece
main_said MainPc.starting = []
main_said MainPc.making1 = past before_detach
main_said (MainPc.testing t Part.text) = past t
main_said (MainPc.testing t Part.result) = label t ∷ past t
main_said (MainPc.testing t Part.newline) = value (shown t) ∷ label t ∷ past t
main_said MainPc.detaching = past after_detach
main_said MainPc.making2 = past before_join
main_said MainPc.joining = past after_join
main_said MainPc.exiting = line after_join false (past after_join)
main_said MainPc.returning = all_lines
main_said MainPc.finished = all_lines

abbrev pub joined_said : Pc → List Piece
joined_said Pc.exiting = starting_joined ∷ []
joined_said Pc.finished = both_joined
joined_said pc = []

abbrev pub detached_said : Pc → List Piece
detached_said Pc.exiting = starting_detached ∷ []
detached_said Pc.finished = exiting_detached ∷ starting_detached ∷ []
detached_said pc = []

-- Where main stands, with the object that it tests next, and the joined thread.
abbrev pub MainFits : MainPc → State → Type 0
MainFits MainPc.starting s = (s.detached_pc ≡ Pc.absent) × (s.joined_pc ≡ Pc.absent)
MainFits MainPc.making1 s = (s.detached_pc ≡ Pc.absent) × (s.joined_pc ≡ Pc.absent)
MainFits (MainPc.testing before_detach part) s = (s.t1 ≡ true) × (s.joined_pc ≡ Pc.absent)
MainFits MainPc.detaching s = s.joined_pc ≡ Pc.absent
MainFits (MainPc.testing after_detach part) s = (s.t1 ≡ false) × (s.joined_pc ≡ Pc.absent)
MainFits MainPc.making2 s = s.joined_pc ≡ Pc.absent
MainFits (MainPc.testing before_join part) s = (s.t2 ≡ true) × (s.joined_pc ≢ Pc.absent)
MainFits MainPc.joining s = s.joined_pc ≢ Pc.absent
MainFits (MainPc.testing after_join Part.text) s = (s.t2 ≡ false) × (s.joined_pc ≡ Pc.finished)
MainFits (MainPc.testing after_join part) s =
    (s.t2 ≡ false)
    × (s.joined_pc ≡ Pc.finished)
    × (joined_pieces (before_last_line s.printed) ≡ both_joined)
MainFits pc s =
    (s.joined_pc ≡ Pc.finished) × (joined_pieces (before_last_line s.printed) ≡ both_joined)

pub record Inv (s : State) : Type 0 where
  pub main_fits : MainFits s.main_pc s
  pub main : main_pieces s.printed ≡ main_said s.main_pc
  pub joined : joined_pieces s.printed ≡ joined_said s.joined_pc
  pub detached : detached_pieces s.printed ≡ detached_said s.detached_pc

testing-Inv :
    (t : Test) (part : Part) (s s' : State)
    → s.main_pc ≡ MainPc.testing t part
    → Inv s
    → main_step (MainPc.testing t part) s ≡ some s'
    → Inv s'
unfolding main_step
testing-Inv before_detach Part.text s s' at v e = ground arith
testing-Inv before_detach Part.result s s' at v e = ground arith
testing-Inv before_detach Part.newline s s' at v e = ground arith
testing-Inv after_detach Part.text s s' at v e = ground arith
testing-Inv after_detach Part.result s s' at v e = ground arith
testing-Inv after_detach Part.newline s s' at v e = ground arith
testing-Inv before_join Part.text s s' at v e = ground arith
testing-Inv before_join Part.result s s' at v e = ground arith
testing-Inv before_join Part.newline s s' at v e = ground arith
testing-Inv after_join Part.text s s' at v e = ground arith
testing-Inv after_join Part.result s s' at v e = ground arith
testing-Inv after_join Part.newline s s' at v e = ground arith

main-Inv : (pc : MainPc) (s s' : State) → s.main_pc ≡ pc → Inv s → main_step pc s ≡ some s' → Inv s'
unfolding main_step
main-Inv MainPc.starting s s' at v e = ground arith
main-Inv MainPc.making1 s s' at v e = ground arith
main-Inv (MainPc.testing t part) s s' at v e = testing-Inv t part s s' at v e
main-Inv MainPc.detaching s s' at v e = ground arith
main-Inv MainPc.making2 s s' at v e = ground arith
main-Inv MainPc.joining s s' at v e = ground arith
main-Inv MainPc.exiting s s' at v e = ground arith
main-Inv MainPc.returning s s' at v e = ground arith
main-Inv MainPc.finished s s' at v e = ground arith

detached-Inv :
    (runs : Bool) (pc : Pc) (s s' : State)
    → s.detached_pc ≡ pc
    → Inv s
    → detached_step runs pc s ≡ some s'
    → Inv s'
unfolding detached_step
detached-Inv true Pc.absent s s' at v e = ground arith
detached-Inv true Pc.starting s s' at v e = ground arith
detached-Inv true Pc.exiting s s' at v e = ground arith
detached-Inv true Pc.finished s s' at v e = ground arith
detached-Inv false pc s s' at v e = ground arith

joined-Inv :
    (runs : Bool) (pc : Pc) (s s' : State)
    → s.joined_pc ≡ pc
    → Inv s
    → joined_step runs pc s ≡ some s'
    → Inv s'
unfolding joined_step
joined-Inv true Pc.absent s s' at v e = ground arith
joined-Inv true Pc.starting s s' at v e = ground arith
joined-Inv true Pc.exiting s s' at v e = ground arith
joined-Inv true Pc.finished s s' at v e = ground arith
joined-Inv false pc s s' at v e = ground arith

pub step-Inv : (t : Turn) (s s' : State) → Inv s → step t s ≡ some s' → Inv s'
unfolding step
step-Inv main_turn s s' v e = main-Inv s.main_pc s s' refl v e
step-Inv detached_turn s s' v e = detached-Inv (process_runs s.main_pc) s.detached_pc s s' refl v e
step-Inv joined_turn s s' v e = joined-Inv (process_runs s.main_pc) s.joined_pc s s' refl v e
