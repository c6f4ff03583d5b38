-- ===== src/Errors.antt =====
-- The errors that the program returns: of errdefs (NotFound, InvalidInput), of fmt.Errorf and
-- errors.New, those that a call outside the program gave, and an error that errors.Wrap or `%w` puts a
-- message before.
use virtual_kubelet_cmd.Base.{String}

pub data Error : Type 0 where
  not_found : String → Error
  invalid_input : String → Error
  plain : String → Error
  external : String → Error
  wrapped : String → Error → Error
