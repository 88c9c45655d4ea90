-- ===== src/Yaml/Tests.antt =====
-- Small documents, read.
use aisb.Prelude.{◌≡◌, refl, true, false, List, [], ◌∷◌, codes}
use aisb.Prelude.Results.{ok, err}
use aisb.Yaml.Text.{
  Text, Value, bool, int, float, text, items, dict, nil, cons, empty, Entries, entry, pos, negsuc,
  Python, unsupported, duplicate_key, out_of_fuel,
}
use aisb.Yaml.Flow.{scalar_from, flow_from}
use aisb.Yaml.Lines.{Lines, Significant}
use aisb.Yaml.Block.{loads, read_map}
use aisb.Yaml.RoundTrip.{in_single}
use aisb.Yaml.Sequences.{sequence_rest, sequence_of}
use aisb.Yaml.Refusals.{flow_from-brace}
use aisb.Yaml.Distinct.{IsExtended, read_map-IsExtended}

abbrev python : Python
python = record { float_eq = λ s v. false; is_digit = λ c. false }

abbrev word : Text → Value
word s = text s

runs : Unit {0}
unfolding loads
runs = tt

compose :
    loads python (
      codes
        "services:\n  api: # the front\n    image: 'api:2'\n    ports:\n    - 80\n    - \"a\\tb\"\n")
    ≡ ok (
        dict (
          entry
            (word (codes "services"))
            (dict (
              entry
                (word (codes "api"))
                (dict (
                  entry (word (codes "image")) (word (codes "api:2")) (
                    entry
                      (word (codes "ports"))
                      (items (cons (int (pos 80)) (cons (word (codes "a\tb")) nil)))
                      empty)))
                empty))
            empty))
unfolding runs
compose = refl

nested :
    loads python
      (codes "- a: 1\n  b: |\n    x\n    y\n- - 2\n  - -3\n- {k: [1, \"q, r\"], t: true}\n")
    ≡ ok (
        items (
          cons
            (dict (
              entry
                (word (codes "a"))
                (int (pos 1))
                (entry (word (codes "b")) (word (codes "x\ny\n")) empty)))
            (cons (items (cons (int (pos 2)) (cons (int (negsuc 2)) nil))) (
              cons
                (dict (
                  entry
                    (word (codes "k"))
                    (items (cons (int (pos 1)) (cons (word (codes "q, r")) nil)))
                    (entry (word (codes "t")) (bool true) empty)))
                nil))))
unfolding runs
nested = refl

folded :
    loads python (codes "text: one\n  two\n\n  three\nmode: 0755\nrate: 1.5e3")
    ≡ ok (
        dict (
          entry (word (codes "text")) (word (codes "one two\nthree")) (
            entry
              (word (codes "mode"))
              (float (codes "0755"))
              (entry (word (codes "rate")) (float (codes "1.5e3")) empty))))
unfolding runs
folded = refl

twice : loads python (codes "a: 1\nb: 2\na: 3") ≡ err (duplicate_key 3 (word (codes "a")))
unfolding runs
twice = refl

anchored : loads python (codes "a: 1\nb: &x 2") ≡ err (unsupported 2)
unfolding runs
anchored = refl

wrong_bracket : loads python (codes "a: [}") ≡ err out_of_fuel
unfolding runs
wrong_bracket = refl

alias_in_flow :
    loads python (codes "a: [*x]")
    ≡ ok (dict (entry (word (codes "a")) (items (cons (word (codes "*x")) nil)) empty))
unfolding runs
alias_in_flow = refl

dropped :
    loads python (codes "a: {[1, 2]}") ≡ ok (dict (entry (word (codes "a")) (dict empty) empty))
unfolding runs
dropped = refl

abbrev two_texts : List Text
two_texts = codes "a, b" ∷ codes "it's" ∷ []

written : sequence_of two_texts ≡ codes "['a, b','it''s',]"
unfolding sequence_rest in_single
written = refl

abbrev anchored_lines : Lines
anchored_lines = record { raw = codes "b: &x 2" ∷ []; i = 0 }

abbrev anchored_line : Significant
anchored_line = record { index = 0; indent = 0; content = codes "b: &x 2" }

flow_from-brace_example :
    flow_from python (scalar_from python 1 9) 1 9 b'[' nil empty (codes "}") ≡ err out_of_fuel
flow_from-brace_example = flow_from-brace python 1 9 9 nil empty []

abbrev one_entry : Entries
one_entry = entry (word (codes "z")) (int (pos 0)) empty

read_map-IsExtended_example :
    IsExtended python one_entry
      (read_map python 9 (record { raw = codes "a: 1" ∷ codes "b: 2" ∷ []; i = 0 }) 0 one_entry)
read_map-IsExtended_example =
    read_map-IsExtended python 9 (record { raw = codes "a: 1" ∷ codes "b: 2" ∷ []; i = 0 }) 0
      one_entry refl
