-- ===== src/Yaml/Sequences.antt =====
-- A flow sequence of texts in single quotes, read by `scalar` of src/aisb/yamlish.py.
use aisb.Prelude.{List, [], ◌∷◌, ◌++◌}
use aisb.Yaml.Text.{Text, text, Values, nil, cons}
use aisb.Yaml.RoundTrip.{in_single}

-- ['a', 'b', ], after its bracket
unfoldable pub sequence_rest : List Text → Text
sequence_rest [] = b']' ∷ []
sequence_rest (s ∷ texts) = in_single s ++ b',' ∷ sequence_rest texts

abbrev pub sequence_of : List Text → Text
sequence_of texts = b'[' ∷ sequence_rest texts

pub texts_of : List Text → Values
texts_of [] = nil
texts_of (s ∷ texts) = cons (text s) (texts_of texts)

append_after : Values → Values → Values
append_after nil vs = vs
append_after (cons w ws) vs = cons w (append_after ws vs)
