-- ===== src/Builtins/Constants.antt =====
-- src/builtins.c: the table of constants. A literal of type double is read as strtod reads it.
use sakura_slemu.Base.{none, some, List, [], ◌∷◌, Str, codes, str_eq, pos, negsuc, find}
use sakura_slemu.Double.{Double}
use sakura_slemu.Value.{SValue, void, integer, float, string, key, null_key}

module _ {F : Type 0} (D : Double F) where
  unfoldable pub constants : List (Str × SValue F)
  constants =
      (codes "TRUE", integer (pos 1))
      ∷ (codes "FALSE", integer (pos 0))
      ∷ (codes "NULL_KEY", key null_key)
      ∷ (codes "EOF", string (10 ∷ 10 ∷ 10 ∷ []))
      ∷ (codes "PI", float (D.strtod (codes "3.14159265358979323846")))
      ∷ (codes "TWO_PI", float (D.strtod (codes "6.28318530717958647692")))
      ∷ (codes "PI_BY_TWO", float (D.strtod (codes "1.57079632679489661923")))
      ∷ (codes "DEG_TO_RAD", float (D.strtod (codes "0.01745329251994329577")))
      ∷ (codes "RAD_TO_DEG", float (D.strtod (codes "57.2957795130823208768")))
      ∷ (codes "SQRT2", float (D.strtod (codes "1.41421356237309504880")))
      ∷ (codes "PUBLIC_CHANNEL", integer (pos 0))
      ∷ (codes "DEBUG_CHANNEL", integer (pos 2147483647))
      ∷ (codes "HTTP_METHOD", integer (pos 0))
      ∷ (codes "HTTP_MIMETYPE", integer (pos 1))
      ∷ (codes "HTTP_BODY_MAXLENGTH", integer (pos 2))
      ∷ (codes "HTTP_VERIFY_CERT", integer (pos 3))
      ∷ (codes "HTTP_VERBOSE_THROTTLE", integer (pos 4))
      ∷ (codes "HTTP_CUSTOM_HEADER", integer (pos 5))
      ∷ (codes "HTTP_PRAGMA_NO_CACHE", integer (pos 6))
      ∷ (codes "PERMISSION_DEBIT", integer (pos 2))
      ∷ (codes "PERMISSION_TAKE_CONTROLS", integer (pos 4))
      ∷ (codes "PERMISSION_TRIGGER_ANIMATION", integer (pos 16))
      ∷ (codes "PERMISSION_ATTACH", integer (pos 32))
      ∷ (codes "CHANGED_INVENTORY", integer (pos 1))
      ∷ (codes "CHANGED_OWNER", integer (pos 128))
      ∷ (codes "CHANGED_REGION", integer (pos 256))
      ∷ (codes "CHANGED_REGION_START", integer (pos 1024))
      ∷ (codes "STRING_TRIM", integer (pos 3))
      ∷ (codes "STRING_TRIM_HEAD", integer (pos 1))
      ∷ (codes "STRING_TRIM_TAIL", integer (pos 2))
      ∷ (codes "JSON_OBJECT", string (239 ∷ 191 ∷ 189 ∷ []))
      ∷ (codes "JSON_ARRAY", string (239 ∷ 191 ∷ 188 ∷ []))
      ∷ (codes "JSON_STRING", string (239 ∷ 191 ∷ 187 ∷ []))
      ∷ (codes "JSON_NUMBER", string (239 ∷ 191 ∷ 186 ∷ []))
      ∷ (codes "JSON_TRUE", string (239 ∷ 191 ∷ 185 ∷ []))
      ∷ (codes "JSON_FALSE", string (239 ∷ 191 ∷ 184 ∷ []))
      ∷ (codes "JSON_NULL", string (239 ∷ 191 ∷ 183 ∷ []))
      ∷ (codes "JSON_INVALID", string (239 ∷ 191 ∷ 182 ∷ []))
      ∷ (codes "LINK_SET", integer (negsuc 0))
      ∷ (codes "LINK_ROOT", integer (pos 1))
      ∷ (codes "LINK_ALL_OTHERS", integer (negsuc 1))
      ∷ (codes "LINK_ALL_CHILDREN", integer (negsuc 2))
      ∷ (codes "LINK_THIS", integer (negsuc 3))
      ∷ (codes "ALL_SIDES", integer (negsuc 0))
      ∷ (codes "INVENTORY_NONE", integer (negsuc 0))
      ∷ (codes "INVENTORY_TEXTURE", integer (pos 0))
      ∷ (codes "INVENTORY_SOUND", integer (pos 1))
      ∷ (codes "INVENTORY_OBJECT", integer (pos 6))
      ∷ (codes "INVENTORY_NOTECARD", integer (pos 7))
      ∷ (codes "INVENTORY_SCRIPT", integer (pos 10))
      ∷ (codes "PAY_HIDE", integer (negsuc 0))
      ∷ (codes "PAY_DEFAULT", integer (negsuc 1))
      ∷ (codes "STATUS_OK", integer (pos 0))
      ∷ (codes "STATUS_INTERNAL_ERROR", integer (negsuc 0))
      ∷ (codes "LINKSETDATA_RESET", integer (pos 0))
      ∷ (codes "LINKSETDATA_UPDATE", integer (pos 1))
      ∷ (codes "LINKSETDATA_DELETE", integer (pos 2))
      ∷ []

  -- The value of the first entry of that name, void if there is none.
  unfoldable pub builtins_const : Str → SValue F
  unfolding constants
  builtins_const name = elim (find (λ e. str_eq e.0 name) constants) [ none ↦ void | some e ↦ e.1 ]
