-- ===== src/Context/Render.antt =====
-- The blocks and the header that context is made of. A curated file is given by the fields that are
-- rendered.
use hive_memory.Base.{Option, none, some, List, [], ◌++◌, is_empty, if◌then◌else◌}
use hive_memory.Text.{Text, codes, byte_len, join}
use hive_memory.Ident.Decimal.{decimal}
use hive_memory.Record.{IndexEntry}
use hive_memory.Context.{TrustLevel, trust_str, ContextSection}
use hive_memory.Context.Escape.{escape_memory_body, escape_attr, sanitize_header_value}

pub record CuratedFile : Type 0 where
  pub id : Text
  pub scope : Text
  pub project_id : Option Text
  pub relative_path : Text
  pub body : Text

-- One attribute of the opening tag.
abbrev attr : Text → Text → Text
attr name value = codes " " ++ (name ++ (codes "=\"" ++ (escape_attr value ++ codes "\"")))

abbrev project_attr : Option Text → Text
project_attr none = []
project_attr (some project_id) = attr (codes "project_id") project_id

-- The tag, the escaped body and the end of the block.
abbrev block_of : Text → Text → Text → Text → Option Text → TrustLevel → Text → Text
block_of id agent store scope project_id trust body =
    codes "<memory"
    ++ (attr (codes "id") id
        ++ (attr (codes "agent") agent
            ++ (attr (codes "store") store
                ++ (attr (codes "scope") scope
                    ++ (project_attr project_id
                        ++ (codes " trust=\""
                            ++ (trust_str trust
                                ++ (codes "\">\n"
                                    ++ (escape_memory_body body ++ codes "\n</memory>\n\n")))))))))

unfoldable pub render_memory_block : Text → IndexEntry → TrustLevel → Text → Text
render_memory_block store_name entry trust body =
    block_of entry.id entry.agent_id store_name entry.scope entry.project_id trust body

-- `human` is the same text before and after escaping.
unfoldable pub render_curated_memory_block : Text → CuratedFile → Text
render_curated_memory_block store_name candidate =
    block_of candidate.id (codes "human") store_name candidate.scope candidate.project_id
      TrustLevel.curated candidate.body

unfoldable pub render_omitted_block : ContextSection → Text
render_omitted_block section =
    codes "<memory"
    ++ (attr (codes "id") section.id
        ++ (attr (codes "store") section.store
            ++ (attr (codes "scope") section.scope
                ++ (codes " trust=\""
                    ++ (trust_str section.trust
                        ++ (codes "\" omitted=\"too-large\">\nThis memory ("
                            ++ (decimal (byte_len section.body)
                                ++ (codes
                                      " bytes) is too large for hook context. If it is relevant, read it with: hm get --store "
                                    ++ (escape_attr section.store
                                        ++ (codes " "
                                            ++ (escape_attr section.id
                                                ++ codes "\n</memory>\n\n")))))))))))

abbrev or_text : Option Text → Text → Text
or_text none default = default
or_text (some value) default = value

abbrev listed : List Text → Text → Text
listed values default = if is_empty values then default else join (codes ",") values

unfoldable pub render_header :
    Text → Option Text → Option Text → Option Text → List Text → List Text → Text
render_header store_name agent_id project_id path_hint scopes sources =
    codes "Hive Memory Context\nstore: "
    ++ (sanitize_header_value store_name
        ++ (codes "\nagent: "
            ++ (sanitize_header_value (or_text agent_id (codes "unknown"))
                ++ (codes "\nproject: "
                    ++ (sanitize_header_value (or_text project_id (codes "none"))
                        ++ (codes "\npath: "
                            ++ (sanitize_header_value (or_text path_hint (codes "none"))
                                ++ (codes "\nscopes: "
                                    ++ (listed scopes (codes "all")
                                        ++ (codes "\nsources: "
                                            ++ (listed sources (codes "remembered")
                                                ++ codes "\n\n")))))))))))
