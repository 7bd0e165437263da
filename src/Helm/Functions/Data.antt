-- ===== src/Helm/Functions/Data.antt =====
-- The data functions of pkg/engine/helm/funcs.go, with the codecs as parameters. What a decoder has put
-- into a map before an error stays there.
use talm.Base.{Option, none, some, []}
use talm.Base.Text.{Text, codes}
use talm.Base.Result.{Result, Error, ok, err, panic, exit, message}
use talm.Engine.Values.{Value, text, Fields, end, Items, no_items, item, put}
use talm.Helm.Files.{drop_newline}

-- `string(data)`, or nothing on an error.
abbrev or_empty : (Text → Text) → Result Text → Result Text
or_empty f (ok out) = ok (f out)
or_empty f (err e) = ok []
or_empty f panic = panic
or_empty f (exit out) = exit out

unfoldable pub to_yaml_text : (Value → Result Text) → Value → Result Text
unfolding drop_newline
to_yaml_text marshal v = or_empty drop_newline (marshal v)

unfoldable pub to_json_text : (Value → Result Text) → Value → Result Text
to_json_text marshal v = or_empty (λ out. out) (marshal v)

-- An error is the text.
unfoldable pub to_toml_text : (Value → Result Text) → Value → Result Text
to_toml_text encode v = elim (encode v) [
  | ok out ↦ ok out
  | err e ↦ ok (message e)
  | panic ↦ panic
  | exit out ↦ exit out
]

abbrev with_error : Fields × Option Error → Fields
with_error (m, none) = m
with_error (m, some e) = put (codes "Error") (text (message e)) m

unfoldable pub from_yaml_text : (Text → Fields → Fields × Option Error) → Text → Fields
from_yaml_text unmarshal s = with_error (unmarshal s end)

unfoldable pub from_json_text : (Text → Fields → Fields × Option Error) → Text → Fields
from_json_text unmarshal s = with_error (unmarshal s end)

abbrev or_error_item : Items × Option Error → Items
or_error_item (a, none) = a
or_error_item (a, some e) = item (text (message e)) no_items

unfoldable pub from_yaml_array_text : (Text → Items → Items × Option Error) → Text → Items
from_yaml_array_text unmarshal s = or_error_item (unmarshal s no_items)

unfoldable pub from_json_array_text : (Text → Items → Items × Option Error) → Text → Items
from_json_array_text unmarshal s = or_error_item (unmarshal s no_items)
