-- ===== src/Driver/Parameters/Procedural.antt =====
-- `ProceduralScan`: whether a semicolon is inside the body of a routine.
use adbc_driver_monetdb.Prelude.{
  Bool, true, false, not, ◌&&◌, ◌||◌, Option, none, some, List, [], ◌∷◌, if◌then◌else◌, Bytes,
}
use adbc_driver_monetdb.Driver.Parameters.Words.{is_word, is_routine_keyword, is_routine_modifier}

pub data CreatePrefix : Type 0 where
  start create or replace modifier procedural other : CreatePrefix

pub data ProceduralBlock : Type 0 where
  begin_block case_block if_block while_block : ProceduralBlock

-- The last block stands at the head.
pub record ProceduralScan : Type 0 where
  pub prefix : CreatePrefix
  pub active : Bool
  pub blocks : List ProceduralBlock
  pub statement_start : Bool
  pub after_end : Option ProceduralBlock

unfoldable pub new_procedural_scan : ProceduralScan
new_procedural_scan = record {
  prefix = start;
  active = false;
  blocks = [];
  statement_start = true;
  after_end = none;
}

unfoldable pub terminates_block : Bytes → ProceduralBlock → Bool
terminates_block word begin_block = false
terminates_block word case_block = is_word "case" word
terminates_block word if_block = is_word "if" word
terminates_block word while_block = is_word "while" word

abbrev pub after_create : Bytes → CreatePrefix
after_create word =
    if is_routine_keyword word
    then procedural
    else if is_routine_modifier word
    then modifier
    else other

unfoldable pub next_prefix : Bytes → CreatePrefix → CreatePrefix
next_prefix word start = if is_word "create" word then create else other
next_prefix word create = if is_word "or" word then or else after_create word
next_prefix word replace = after_create word
next_prefix word or = if is_word "replace" word then replace else other
next_prefix word modifier = if is_word "function" word then procedural else other
next_prefix word procedural = procedural
next_prefix word other = other

abbrev pub is_procedural : CreatePrefix → Bool
is_procedural start = false
is_procedural create = false
is_procedural or = false
is_procedural replace = false
is_procedural modifier = false
is_procedural procedural = true
is_procedural other = false

-- Before the body: the `begin` of a routine opens the first block.
unfoldable pub observe_prefix : Bytes → ProceduralScan → ProceduralScan
observe_prefix word p =
    let prefix' = next_prefix word p.prefix in
    if is_procedural prefix' && is_word "begin" word
    then record p {
      prefix = prefix';
      active = true;
      blocks = begin_block ∷ p.blocks;
      statement_start = true;
    }
    else record p { prefix = prefix' }

abbrev pub pop_block : ProceduralScan → ProceduralScan
pop_block p = elim p.blocks [
  | [] ↦ record p { after_end = none; statement_start = false }
  | b ∷ rest ↦ record p { after_end = some b; blocks = rest; statement_start = false }
]

abbrev pub push_block : ProceduralBlock → ProceduralScan → ProceduralScan
push_block b p = record p { blocks = b ∷ p.blocks; statement_start = false }

-- A word in the body that does not end the `END` before it.
unfoldable pub observe_body : Bytes → ProceduralScan → ProceduralScan
observe_body word p =
    if is_word "end" word
    then pop_block p
    else if is_word "case" word
    then push_block case_block p
    else if is_word "if" word && p.statement_start
    then push_block if_block p
    else if is_word "while" word
    then push_block while_block p
    else record p {
      statement_start =
          is_word "then" word || is_word "else" word || is_word "elseif" word || is_word "do" word;
    }

abbrev pub ends_block : Bytes → Option ProceduralBlock → Bool
ends_block word none = false
ends_block word (some b) = terminates_block word b

-- `after_end` is taken by the first word in the body.
unfoldable pub observe_word : Bytes → ProceduralScan → ProceduralScan
observe_word word p =
    let taken = record p { after_end = none } in
    if not p.active
    then observe_prefix word p
    else if ends_block word p.after_end
    then taken
    else observe_body word taken

abbrev pub is_nil {ℓ} : {A : Type ℓ} → List A → Bool
is_nil [] = true
is_nil (x ∷ xs) = false

unfoldable pub semicolon_is_internal : ProceduralScan → Bool × ProceduralScan
semicolon_is_internal p =
    if p.active && not (is_nil p.blocks)
    then (true, record p { statement_start = true; after_end = none })
    else (false, p)
