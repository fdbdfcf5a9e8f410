-- ===== src/Service/Access/Table.antt =====
-- What the table of topics and actions decides.
use arduino_yun_bridge.Base.{some, ◌≡◌, refl, Bool, Text, All, codes}
use arduino_yun_bridge.Base.Assoc.{lookup}
use arduino_yun_bridge.Service.Access.{pair_key, lower, fields, allows_topic, topic_auth_mapping}

-- A topic and an action that one field of the authorization alone decides.
pub record Decides (field : Text) : Type 0 where
  pub topic : Text
  pub action : Text
  pub decided : (auth : Text → Bool) → allows_topic auth topic action ≡ auth field

row :
    (topic action field : Text)
    → lookup ⦃e = pair_key⦄ (lower topic, lower action) topic_auth_mapping ≡ some field
    → Decides field
unfolding allows_topic
row topic action field found = record {
  topic = topic;
  action = action;
  decided = λ auth. rw (allows_topic, found);
}

-- Every field of the authorization decides some action of some topic.
pub fields-All : All Decides fields
unfolding lookup topic_auth_mapping
fields-All = (
  row (codes "file") (codes "read") (codes "file_read") refl,
  (
    row (codes "file") (codes "write") (codes "file_write") refl,
    (
      row (codes "file") (codes "remove") (codes "file_remove") refl,
      (
        row (codes "datastore") (codes "get") (codes "datastore_get") refl,
        (
          row (codes "datastore") (codes "put") (codes "datastore_put") refl,
          (
            row (codes "mailbox") (codes "read") (codes "mailbox_read") refl,
            (
              row (codes "mailbox") (codes "write") (codes "mailbox_write") refl,
              (
                row (codes "sh") (codes "run_async") (codes "shell_run_async") refl,
                (
                  row (codes "sh") (codes "poll") (codes "shell_poll") refl,
                  (
                    row (codes "sh") (codes "kill") (codes "shell_kill") refl,
                    (
                      row (codes "console") (codes "in") (codes "console_input") refl,
                      (
                        row (codes "d") (codes "write") (codes "digital_write") refl,
                        (
                          row (codes "d") (codes "read") (codes "digital_read") refl,
                          (
                            row (codes "d") (codes "mode") (codes "digital_mode") refl,
                            (
                              row (codes "a") (codes "write") (codes "analog_write") refl,
                              (
                                row (codes "a") (codes "read") (codes "analog_read") refl,
                                (
                                  row (codes "system") (codes "version") (codes "system_version")
                                      refl,
                                  (
                                    row (codes "system") (codes "free_memory")
                                        (codes "system_free_memory") refl,
                                    (
                                      row (codes "system") (codes "bootloader")
                                          (codes "system_bootloader") refl,
                                      (
                                        row (codes "spi") (codes "begin") (codes "spi_begin") refl,
                                        (
                                          row (codes "spi") (codes "end") (codes "spi_end") refl,
                                          (
                                            row (codes "spi") (codes "transfer")
                                                (codes "spi_transfer") refl,
                                            (
                                              row (codes "spi") (codes "config")
                                                  (codes "spi_config") refl,
                                              tt,
                                            ),
                                          ),
                                        ),
                                      ),
                                    ),
                                  ),
                                ),
                              ),
                            ),
                          ),
                        ),
                      ),
                    ),
                  ),
                ),
              ),
            ),
          ),
        ),
      ),
    ),
  ),
)
