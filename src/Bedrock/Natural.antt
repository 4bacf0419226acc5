-- ===== src/Bedrock/Natural.antt =====
-- `NATURAL_BLOCKS` and `NATURAL_ENTITIES` of from-ai/minecraft/bedrock_list_non_natural.py.
use Prim.Native.String.{String}
use code_recipes.Common.{List, [], ◌∷◌, map}
use code_recipes.Common.Eq.{Str}
use code_recipes.Common.Text.{codes}

block_names : List String
block_names =
    "minecraft:air" ∷ "minecraft:cave_air" ∷ "minecraft:void_air" ∷ "minecraft:stone"
    ∷ "minecraft:granite" ∷ "minecraft:diorite" ∷ "minecraft:andesite" ∷ "minecraft:tuff"
    ∷ "minecraft:tuff_bricks" ∷ "minecraft:chiseled_tuff" ∷ "minecraft:deepslate"
    ∷ "minecraft:cobbled_deepslate" ∷ "minecraft:calcite" ∷ "minecraft:smooth_basalt"
    ∷ "minecraft:dirt" ∷ "minecraft:grass_block" ∷ "minecraft:short_grass" ∷ "minecraft:grass"
    ∷ "minecraft:podzol" ∷ "minecraft:mycelium" ∷ "minecraft:rooted_dirt" ∷ "minecraft:coarse_dirt"
    ∷ "minecraft:dirt_with_roots" ∷ "minecraft:moss_block" ∷ "minecraft:moss_carpet"
    ∷ "minecraft:mud" ∷ "minecraft:muddy_mangrove_roots" ∷ "minecraft:sand" ∷ "minecraft:red_sand"
    ∷ "minecraft:gravel" ∷ "minecraft:clay" ∷ "minecraft:sandstone" ∷ "minecraft:red_sandstone"
    ∷ "minecraft:suspicious_sand" ∷ "minecraft:suspicious_gravel" ∷ "minecraft:coal_ore"
    ∷ "minecraft:deepslate_coal_ore" ∷ "minecraft:iron_ore" ∷ "minecraft:deepslate_iron_ore"
    ∷ "minecraft:gold_ore" ∷ "minecraft:deepslate_gold_ore" ∷ "minecraft:diamond_ore"
    ∷ "minecraft:deepslate_diamond_ore" ∷ "minecraft:emerald_ore"
    ∷ "minecraft:deepslate_emerald_ore" ∷ "minecraft:lapis_ore" ∷ "minecraft:deepslate_lapis_ore"
    ∷ "minecraft:redstone_ore" ∷ "minecraft:deepslate_redstone_ore" ∷ "minecraft:lit_redstone_ore"
    ∷ "minecraft:lit_deepslate_redstone_ore" ∷ "minecraft:copper_ore"
    ∷ "minecraft:deepslate_copper_ore" ∷ "minecraft:nether_quartz_ore" ∷ "minecraft:nether_gold_ore"
    ∷ "minecraft:ancient_debris" ∷ "minecraft:water" ∷ "minecraft:flowing_water" ∷ "minecraft:lava"
    ∷ "minecraft:flowing_lava" ∷ "minecraft:bubble_column" ∷ "minecraft:ice"
    ∷ "minecraft:packed_ice" ∷ "minecraft:blue_ice" ∷ "minecraft:frosted_ice" ∷ "minecraft:snow"
    ∷ "minecraft:snow_layer" ∷ "minecraft:powder_snow" ∷ "minecraft:bedrock" ∷ "minecraft:obsidian"
    ∷ "minecraft:end_portal_frame" ∷ "minecraft:end_portal" ∷ "minecraft:end_gateway"
    ∷ "minecraft:magma" ∷ "minecraft:fire" ∷ "minecraft:soul_fire" ∷ "minecraft:oak_log"
    ∷ "minecraft:oak_leaves" ∷ "minecraft:spruce_log" ∷ "minecraft:spruce_leaves"
    ∷ "minecraft:birch_log" ∷ "minecraft:birch_leaves" ∷ "minecraft:jungle_log"
    ∷ "minecraft:jungle_leaves" ∷ "minecraft:acacia_log" ∷ "minecraft:acacia_leaves"
    ∷ "minecraft:dark_oak_log" ∷ "minecraft:dark_oak_leaves" ∷ "minecraft:cherry_log"
    ∷ "minecraft:cherry_leaves" ∷ "minecraft:mangrove_log" ∷ "minecraft:mangrove_leaves"
    ∷ "minecraft:mangrove_roots" ∷ "minecraft:pale_oak_log" ∷ "minecraft:pale_oak_leaves"
    ∷ "minecraft:bamboo_block" ∷ "minecraft:bamboo_sapling" ∷ "minecraft:bamboo"
    ∷ "minecraft:oak_sapling" ∷ "minecraft:spruce_sapling" ∷ "minecraft:birch_sapling"
    ∷ "minecraft:jungle_sapling" ∷ "minecraft:acacia_sapling" ∷ "minecraft:dark_oak_sapling"
    ∷ "minecraft:cherry_sapling" ∷ "minecraft:mangrove_propagule" ∷ "minecraft:pale_oak_sapling"
    ∷ "minecraft:tall_grass" ∷ "minecraft:fern" ∷ "minecraft:large_fern" ∷ "minecraft:dead_bush"
    ∷ "minecraft:seagrass" ∷ "minecraft:tallgrass" ∷ "minecraft:kelp" ∷ "minecraft:kelp_plant"
    ∷ "minecraft:cactus" ∷ "minecraft:sugar_cane" ∷ "minecraft:vine" ∷ "minecraft:lily_pad"
    ∷ "minecraft:glow_lichen" ∷ "minecraft:hanging_roots" ∷ "minecraft:big_dripleaf"
    ∷ "minecraft:big_dripleaf_stem" ∷ "minecraft:small_dripleaf" ∷ "minecraft:spore_blossom"
    ∷ "minecraft:azalea" ∷ "minecraft:flowering_azalea" ∷ "minecraft:azalea_leaves"
    ∷ "minecraft:flowering_azalea_leaves" ∷ "minecraft:cave_vines"
    ∷ "minecraft:cave_vines_body_with_berries" ∷ "minecraft:cave_vines_head_with_berries"
    ∷ "minecraft:twisting_vines" ∷ "minecraft:twisting_vines_plant" ∷ "minecraft:weeping_vines"
    ∷ "minecraft:weeping_vines_plant" ∷ "minecraft:nether_sprouts" ∷ "minecraft:warped_roots"
    ∷ "minecraft:crimson_roots" ∷ "minecraft:warped_fungus" ∷ "minecraft:crimson_fungus"
    ∷ "minecraft:bush" ∷ "minecraft:yellow_flower" ∷ "minecraft:red_flower" ∷ "minecraft:dandelion"
    ∷ "minecraft:poppy" ∷ "minecraft:blue_orchid" ∷ "minecraft:allium" ∷ "minecraft:azure_bluet"
    ∷ "minecraft:red_tulip" ∷ "minecraft:orange_tulip" ∷ "minecraft:white_tulip"
    ∷ "minecraft:pink_tulip" ∷ "minecraft:oxeye_daisy" ∷ "minecraft:cornflower"
    ∷ "minecraft:lily_of_the_valley" ∷ "minecraft:sunflower" ∷ "minecraft:lilac"
    ∷ "minecraft:rose_bush" ∷ "minecraft:peony" ∷ "minecraft:wither_rose"
    ∷ "minecraft:pitcher_plant" ∷ "minecraft:torchflower" ∷ "minecraft:pitcher_crop"
    ∷ "minecraft:torchflower_crop" ∷ "minecraft:open_eyeblossom" ∷ "minecraft:closed_eyeblossom"
    ∷ "minecraft:pale_moss_block" ∷ "minecraft:pale_moss_carpet" ∷ "minecraft:resin_clump"
    ∷ "minecraft:resin_block" ∷ "minecraft:resin_bricks" ∷ "minecraft:chiseled_resin_bricks"
    ∷ "minecraft:brown_mushroom" ∷ "minecraft:red_mushroom" ∷ "minecraft:brown_mushroom_block"
    ∷ "minecraft:red_mushroom_block" ∷ "minecraft:mushroom_stem" ∷ "minecraft:huge_mushroom_1"
    ∷ "minecraft:huge_mushroom_2" ∷ "minecraft:dripstone_block" ∷ "minecraft:pointed_dripstone"
    ∷ "minecraft:amethyst_block" ∷ "minecraft:budding_amethyst" ∷ "minecraft:amethyst_cluster"
    ∷ "minecraft:large_amethyst_bud" ∷ "minecraft:medium_amethyst_bud"
    ∷ "minecraft:small_amethyst_bud" ∷ "minecraft:sculk" ∷ "minecraft:sculk_vein"
    ∷ "minecraft:sculk_catalyst" ∷ "minecraft:sculk_shrieker" ∷ "minecraft:sculk_sensor"
    ∷ "minecraft:calibrated_sculk_sensor" ∷ "minecraft:netherrack" ∷ "minecraft:soul_sand"
    ∷ "minecraft:soul_soil" ∷ "minecraft:nether_wart_block" ∷ "minecraft:warped_wart_block"
    ∷ "minecraft:warped_nylium" ∷ "minecraft:crimson_nylium" ∷ "minecraft:warped_stem"
    ∷ "minecraft:crimson_stem" ∷ "minecraft:warped_hyphae" ∷ "minecraft:crimson_hyphae"
    ∷ "minecraft:basalt" ∷ "minecraft:blackstone" ∷ "minecraft:glowstone" ∷ "minecraft:nether_wart"
    ∷ "minecraft:end_stone" ∷ "minecraft:chorus_plant" ∷ "minecraft:chorus_flower"
    ∷ "minecraft:infested_stone" ∷ "minecraft:infested_cobblestone"
    ∷ "minecraft:infested_stone_bricks" ∷ "minecraft:infested_mossy_stone_bricks"
    ∷ "minecraft:infested_cracked_stone_bricks" ∷ "minecraft:infested_chiseled_stone_bricks"
    ∷ "minecraft:infested_deepslate" ∷ "minecraft:cobweb" ∷ "minecraft:web" ∷ "minecraft:sponge"
    ∷ "minecraft:brain_coral" ∷ "minecraft:brain_coral_block" ∷ "minecraft:dead_brain_coral_block"
    ∷ "minecraft:bubble_coral" ∷ "minecraft:bubble_coral_block"
    ∷ "minecraft:dead_bubble_coral_block" ∷ "minecraft:fire_coral" ∷ "minecraft:fire_coral_block"
    ∷ "minecraft:dead_fire_coral_block" ∷ "minecraft:horn_coral" ∷ "minecraft:horn_coral_block"
    ∷ "minecraft:dead_horn_coral_block" ∷ "minecraft:tube_coral" ∷ "minecraft:tube_coral_block"
    ∷ "minecraft:dead_tube_coral_block" ∷ "minecraft:brain_coral_fan"
    ∷ "minecraft:dead_brain_coral_fan" ∷ "minecraft:bubble_coral_fan"
    ∷ "minecraft:dead_bubble_coral_fan" ∷ "minecraft:fire_coral_fan"
    ∷ "minecraft:dead_fire_coral_fan" ∷ "minecraft:horn_coral_fan" ∷ "minecraft:dead_horn_coral_fan"
    ∷ "minecraft:tube_coral_fan" ∷ "minecraft:dead_tube_coral_fan" ∷ "minecraft:coral_fan"
    ∷ "minecraft:coral_fan_dead" ∷ "minecraft:coral_fan_hang" ∷ "minecraft:coral_fan_hang2"
    ∷ "minecraft:coral_fan_hang3" ∷ "minecraft:coral_block" ∷ "minecraft:big_dripleaf"
    ∷ "minecraft:cobblestone" ∷ "minecraft:mossy_cobblestone" ∷ "minecraft:stone_bricks"
    ∷ "minecraft:mossy_stone_bricks" ∷ "minecraft:cracked_stone_bricks"
    ∷ "minecraft:chiseled_stone_bricks" ∷ "minecraft:gravel" ∷ "minecraft:monster_egg" ∷ []

entity_names : List String
entity_names =
    "minecraft:cow" ∷ "minecraft:mooshroom" ∷ "minecraft:pig" ∷ "minecraft:sheep"
    ∷ "minecraft:chicken" ∷ "minecraft:rabbit" ∷ "minecraft:horse" ∷ "minecraft:donkey"
    ∷ "minecraft:mule" ∷ "minecraft:llama" ∷ "minecraft:trader_llama" ∷ "minecraft:wolf"
    ∷ "minecraft:cat" ∷ "minecraft:ocelot" ∷ "minecraft:parrot" ∷ "minecraft:fox"
    ∷ "minecraft:panda" ∷ "minecraft:polar_bear" ∷ "minecraft:turtle" ∷ "minecraft:bee"
    ∷ "minecraft:goat" ∷ "minecraft:axolotl" ∷ "minecraft:frog" ∷ "minecraft:tadpole"
    ∷ "minecraft:camel" ∷ "minecraft:sniffer" ∷ "minecraft:strider" ∷ "minecraft:zombie"
    ∷ "minecraft:zombie_villager" ∷ "minecraft:zombie_villager_v2" ∷ "minecraft:husk"
    ∷ "minecraft:drowned" ∷ "minecraft:skeleton" ∷ "minecraft:stray" ∷ "minecraft:bogged"
    ∷ "minecraft:creeper" ∷ "minecraft:spider" ∷ "minecraft:cave_spider" ∷ "minecraft:enderman"
    ∷ "minecraft:witch" ∷ "minecraft:slime" ∷ "minecraft:phantom" ∷ "minecraft:silverfish"
    ∷ "minecraft:endermite" ∷ "minecraft:guardian" ∷ "minecraft:elder_guardian"
    ∷ "minecraft:vindicator" ∷ "minecraft:pillager" ∷ "minecraft:ravager" ∷ "minecraft:evoker"
    ∷ "minecraft:vex" ∷ "minecraft:warden" ∷ "minecraft:breeze" ∷ "minecraft:creaking"
    ∷ "minecraft:blaze" ∷ "minecraft:ghast" ∷ "minecraft:magma_cube" ∷ "minecraft:wither_skeleton"
    ∷ "minecraft:hoglin" ∷ "minecraft:zoglin" ∷ "minecraft:piglin" ∷ "minecraft:piglin_brute"
    ∷ "minecraft:zombified_piglin" ∷ "minecraft:bat" ∷ "minecraft:allay" ∷ "minecraft:shulker"
    ∷ "minecraft:villager" ∷ "minecraft:villager_v2" ∷ "minecraft:wandering_trader"
    ∷ "minecraft:iron_golem" ∷ "minecraft:snow_golem" ∷ "minecraft:cod" ∷ "minecraft:salmon"
    ∷ "minecraft:tropical_fish" ∷ "minecraft:pufferfish" ∷ "minecraft:dolphin" ∷ "minecraft:squid"
    ∷ "minecraft:glow_squid" ∷ "minecraft:ender_dragon" ∷ "minecraft:wither"
    ∷ "minecraft:falling_block" ∷ "minecraft:xp_orb" ∷ "minecraft:item" ∷ "minecraft:lightning_bolt"
    ∷ []

unfoldable pub natural_blocks : List Str
unfolding block_names
natural_blocks = map codes block_names

unfoldable pub natural_entities : List Str
unfolding entity_names
natural_entities = map codes entity_names
